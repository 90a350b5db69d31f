-- ===== src/JsDeviceTree/Walks.antt =====
-- The walks of main/JS_device_tree.c over nodes: whatever the tokens are, the tree stays in order.
use xnu_uboot_arm.Base.{ℕ, zero, suc, ◌+◌, ◌≡◌, Bool, true, false, Option, none, some, ◌==◌, sub32}
use xnu_uboot_arm.DeviceTree.{Heap, DeviceTree, add_child}
use xnu_uboot_arm.DeviceTree.Count.{occurs}
use xnu_uboot_arm.JsDeviceTree.{
  Walk, skipped, parser_error, halted, exhausted, Context, build_node, object_loop,
  parse_in_node_token, walk_children,
}
use xnu_uboot_arm.DeviceTree.Kept.{IsTended, Kept, Born, add_child-Born}
use xnu_uboot_arm.JsDeviceTree.Kept.{Good, Good-trans, erred, by_type, goes_on, insert_pair-Good}

module _ {W : Type 0} (ctx : Context) (h : Heap W)
    (plenty : (n : ℕ) (w : W) → (h.malloc n w).0 ≡ true) where
  unchanged : (t : DeviceTree W) → IsTended t → Kept t t
  unchanged t k = record { tended = k; nodes = λ j e. e }

  by_end :
      (P : Walk W → Type 0) (b : Bool) {x y : Walk W}
      → P x
      → P y
      → P (elim b [ true ↦ x | false ↦ y ])
  by_end P true p q = p
  by_end P false p q = q

  born :
      (t : DeviceTree W) (r : Option ℕ × DeviceTree W) (f : Option ℕ → DeviceTree W → Walk W)
      → Born h plenty t r
      → ((c : ℕ) (t' : DeviceTree W) → Kept t t' → occurs c t'.root ≡ 1 → Good t (f (some c) t'))
      → Good t (f r.0 r.1)
  unfolding Born
  born t (none, t') f b k = absurd b
  born t (some c, t') f b k = k c t' b.0 b.1

  mutual
    unfolding build_node object_loop parse_in_node_token walk_children Good

    pub build_node-Good :
        (fuel i id : ℕ) (t : DeviceTree W)
        → IsTended t
        → occurs id t.root ≡ 1
        → Good t (build_node ctx h fuel i (some id) t)
    build_node-Good zero i id t k one = tt
    build_node-Good (suc fuel) i id t k one =
        let e = erred (unchanged t k) in
        by_type (Good t) (ctx.tokens i).type e
          (object_loop-Good fuel (ctx.tokens i).size 1 i id t k one) e e e

    object_loop-Good :
        (fuel nested j i id : ℕ) (t : DeviceTree W)
        → IsTended t
        → occurs id t.root ≡ 1
        → Good t (object_loop ctx h fuel nested j i (some id) t)
    object_loop-Good zero nested j i id t k one = tt
    object_loop-Good (suc fuel) nested j i id t k one =
        by_end (Good t) (nested == 0) (unchanged t k) (
          goes_on t (parse_in_node_token ctx h fuel (i + j) (some id) t)
            (λ skip t'. object_loop ctx h fuel (sub32 nested 2) (j + skip) i (some id) t')
            (parse_in_node_token-Good fuel (i + j) id t k one)
            (λ skip t' s.
              Good-trans (object_loop ctx h fuel (sub32 nested 2) (j + skip) i (some id) t') s (
                object_loop-Good fuel (sub32 nested 2) (j + skip) i id t' s.tended
                  (s.nodes id one))))

    parse_in_node_token-Good :
        (fuel i id : ℕ) (t : DeviceTree W)
        → IsTended t
        → occurs id t.root ≡ 1
        → Good t (parse_in_node_token ctx h fuel i (some id) t)
    parse_in_node_token-Good zero i id t k one = tt
    parse_in_node_token-Good (suc fuel) i id t k one =
        let e = erred (unchanged t k) in
        let array_at = i + 1 in
        by_type (Good t) (ctx.tokens i).type e e e (insert_pair-Good h plenty ctx id i t k one) (
          by_type (Good t) (ctx.tokens array_at).type e e
            (goes_on t (walk_children ctx h fuel (ctx.tokens array_at).size 1 array_at (some id) t)
              (λ skip t'. skipped (skip + 1) t')
              (walk_children-Good fuel (ctx.tokens array_at).size 1 array_at id t k one)
              (λ skip t' s. s))
            e e)

    walk_children-Good :
        (fuel nested j i id : ℕ) (t : DeviceTree W)
        → IsTended t
        → occurs id t.root ≡ 1
        → Good t (walk_children ctx h fuel nested j i (some id) t)
    walk_children-Good fuel zero j i id t k one = unchanged t k
    walk_children-Good zero (suc nested) j i id t k one = tt
    walk_children-Good (suc fuel) (suc nested) j i id t k one =
        let next : ℕ → DeviceTree W → Walk W =
          λ skip t'. walk_children ctx h fuel nested (j + skip) i (some id) t' in
        born t (add_child h (some id) none t)
          (λ me t1. elim (build_node ctx h fuel (i + j) me t1) [
            | skipped skip t' ↦ next skip t'
            | parser_error t' ↦ parser_error t'
            | halted ↦ halted
            | exhausted ↦ exhausted
          ])
          (add_child-Born h plenty id t k one)
          (λ c t1 s there.
            goes_on t (build_node ctx h fuel (i + j) (some c) t1) next
              (Good-trans (build_node ctx h fuel (i + j) (some c) t1) s
                (build_node-Good fuel (i + j) c t1 s.tended there))
              (λ skip t' s'.
                Good-trans (next skip t') s'
                  (walk_children-Good fuel nested (j + skip) i id t' s'.tended (s'.nodes id one))))
