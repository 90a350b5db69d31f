-- ===== src/DeviceTree/Find/Walk.antt =====
-- `DT__FindNode` against a walk over the names between the slashes of its path.
use xnu_uboot_arm.Base.{
  ℕ, zero, suc, ◌+◌, ◌-◌, ◌≤◌, ◌<◌, ◌≡◌, ◌∙◌, sym, refl, ap, Bool, true, false, none, some, List,
  [], ◌∷◌, length, arith,
}
use xnu_uboot_arm.DeviceTree.{Property, Node, null, node, Heap, DeviceTree}
use xnu_uboot_arm.DeviceTree.Find.{
  skip_slashes, take_name, Child, child, no_child, unterminated, find_child, Reached, reached,
  faulted, next_child, find_from, find_node,
}
use xnu_uboot_arm.DeviceTree.Find.Path.{
  first_name, behind, components, components-first_name, components-skip_slashes,
  skip_slashes_empty, take_name-first_name, length-behind, length-skip_slashes,
}

-- From a node with these children, one child of each name after another.
unfoldable pub descend : List (List ℕ) → (id : ℕ) → (children : Node) → Child
descend [] id children = child id children
descend (name ∷ names) id children = elim (find_child name children) [
  | no_child ↦ no_child
  | unterminated ↦ unterminated
  | child i below ↦ descend names i below
]

unfoldable pub AllShort : (limit : ℕ) → List (List ℕ) → Type 0
AllShort limit [] = Unit {0}
AllShort limit (name ∷ names) = (length name ≤ limit) × AllShort limit names

module _ {W : Type 0} (h : Heap W) (max_entry_name : ℕ) (create : Bool) (t : DeviceTree W) where
  -- What the walk finds is returned, with the tree as it was; where it finds nothing and nothing is to
  -- be created, none is.
  abbrev pub Agrees : Child → Reached W → Type 0
  Agrees (child id below) r = r ≡ reached (some id) t
  Agrees no_child r = create ≡ false → r ≡ reached none t
  Agrees unterminated r = r ≡ faulted

  at_child :
      (r : Child) (f : ℕ → Node → Reached W) (x : Reached W) (names : List (List ℕ))
      → ((i : ℕ) (below : Node) → Agrees (descend names i below) (f i below))
      → (create ≡ false → x ≡ reached none t)
      → Agrees
          (elim r [
            | no_child ↦ no_child
            | unterminated ↦ unterminated
            | child i below ↦ descend names i below
          ])
          (elim r [ unterminated ↦ faulted | child i below ↦ f i below | no_child ↦ x ])
  at_child (child i below) f x names k n = k i below
  at_child no_child f x names k n = n
  at_child unterminated f x names k n = refl

  by_create :
      (x y : Reached W)
      → x ≡ reached none t
      → create ≡ false
      → (elim create [ false ↦ x | true ↦ y ]) ≡ reached none t
  by_create x y k e = rw e k

  fits :
      (path : List ℕ) (name : List ℕ)
      → first_name path ≡ name
      → AllShort (max_entry_name - 1) (components path)
      → length (first_name path) ≤ max_entry_name - 1
  fits path [] e short = rw e (omega arith)
  fits path (c ∷ cs) e short =
      let k : AllShort (max_entry_name - 1) ((c ∷ cs) ∷ components (behind path)) =
        rw (sym (components-first_name path c cs e)) short in
      rw e (unfold AllShort in k.0)

  find_from-Agrees :
      (fuel : ℕ) (path : List ℕ) (id : ℕ) (children : Node)
      → length path < fuel
      → AllShort (max_entry_name - 1) (components path)
      → Agrees
          (descend (components path) id children)
          (find_from h max_entry_name create fuel path id children t)
  unfolding find_from descend
  find_from-Agrees zero path id children a short = absurd (omega (arith, a))
  find_from-Agrees (suc n) path id children a short =
      at_name (first_name (skip_slashes path)) refl (find_from-Agrees n)
    where
      taken :
          (name : List ℕ)
          → first_name (skip_slashes path) ≡ name
          → take_name (max_entry_name - 1) (skip_slashes path) ≡ (name, behind (skip_slashes path))
      taken name e =
          let q = skip_slashes path in
          let short_q : AllShort (max_entry_name - 1) (components q) =
            rw (components-skip_slashes path) short in
          take_name-first_name (max_entry_name - 1) q (fits q name e short_q)
          ∙ ap (λ (x : List ℕ). (x, behind q)) e

      at_name :
          (name : List ℕ)
          → first_name (skip_slashes path) ≡ name
          → ((path : List ℕ) (id : ℕ) (children : Node)
              → length path < n
              → AllShort (max_entry_name - 1) (components path)
              → Agrees
                  (descend (components path) id children)
                  (find_from h max_entry_name create n path id children t))
          → Agrees
              (descend (components path) id children)
              (find_from h max_entry_name create (suc n) path id children t)
      at_name [] e again =
          let q = skip_slashes path in
          let none_left : components path ≡ [] = skip_slashes_empty path e in
          rw (none_left, taken [] e, descend, find_from) (unfold descend next_child in refl)
      at_name (c ∷ cs) e again =
          let q = skip_slashes path in
          let split : components path ≡ (c ∷ cs) ∷ components (behind q) =
            sym (components-skip_slashes path) ∙ components-first_name q c cs e in
          let short_rest : AllShort (max_entry_name - 1) ((c ∷ cs) ∷ components (behind q)) =
            rw (sym split) short in
          let shorter : length (behind q) < n =
            omega (arith, a, length-behind q, length-skip_slashes path, ap length e) in
          rw (split, taken (c ∷ cs) e, find_from)
            (unfold descend next_child in
              at_child (find_child (c ∷ cs) children)
                (λ i below. find_from h max_entry_name create n (behind q) i below t) _
                (components (behind q))
                (λ i below. again (behind q) i below shorter (unfold AllShort in short_rest.1))
                (by_create (reached none t) _ refl))

  -- Where no name of the path is longer than the buffer holds, `DT__FindNode` walks from the root over
  -- the names between the slashes, each time to the first child of that name: it returns the node
  -- that the walk ends at and leaves the tree, whether or not it is to create nodes; it returns none
  -- where the walk finds no child and nothing is to be created; and the fuel is enough.
  pub find_node-Agrees :
      (path : List ℕ) (id : ℕ) (ps : List Property) (children next : Node)
      → t.root ≡ node id ps children next
      → AllShort (max_entry_name - 1) (components path)
      → Agrees (descend (components path) id children) (find_node h max_entry_name create path t)
  unfolding find_node
  find_node-Agrees path id ps children next r short = at_root t.root r
    where
      at_root :
          (n : Node)
          → n ≡ node id ps children next
          → Agrees (descend (components path) id children) (elim n [
            | null ↦ reached none t
            | node i qs below behind ↦
                find_from h max_entry_name create (length path + 1) path i below t
          ])
      at_root n e = rw e (find_from-Agrees (length path + 1) path id children (omega arith) short)
