-- ===== src/JsDeviceTree/Kept.antt =====
-- The walks of main/JS_device_tree.c keep the tree's counts right, whatever the tokens are.
use xnu_uboot_arm.Base.{ℕ, ◌+◌, ◌≡◌, refl, true, Option, none, some, List, [], ◌∷◌, ◌++◌}
use xnu_uboot_arm.Jsmn.{TokenType, primitive, object, array, string, children_token, Token}
use xnu_uboot_arm.DeviceTree.{Heap, DeviceTree}
use xnu_uboot_arm.DeviceTree.Count.{occurs}
use xnu_uboot_arm.DeviceTree.Kept.{IsTended, Kept, Kept-trans, with_heap, add_property-Kept}
use xnu_uboot_arm.JsDeviceTree.{
  Walk, skipped, parser_error, halted, exhausted, Context, data_length, data_bytes, extent,
  allocate, token_to_string, token_to_integer_data, insert_data, insert_array, insert_pair,
}

module _ {W : Type 0} where
  -- Where a walk ends with a tree, the tree before it is kept.
  unfoldable pub Good : DeviceTree W → Walk W → Type 0
  Good t (skipped skip t') = Kept t t'
  Good t (parser_error t') = Kept t t'
  Good t halted = Unit {0}
  Good t exhausted = Unit {0}

  pub by_type :
      (P : Walk W → Type 0) (type : TokenType) {a b c d e : Walk W}
      → P a
      → P b
      → P c
      → P d
      → P e
      → P (elim type [ primitive ↦ a | object ↦ b | array ↦ c | string ↦ d | children_token ↦ e ])
  by_type P primitive a b c d e = a
  by_type P object a b c d e = b
  by_type P array a b c d e = c
  by_type P string a b c d e = d
  by_type P children_token a b c d e = e

  pub erred : {t t' : DeviceTree W} → Kept t t' → Good t (parser_error t')
  unfolding Good
  erred k = k

  by_option :
      (P : Walk W → Type 0) (r : Option ℕ) {n : Walk W} {f : ℕ → Walk W}
      → P n
      → ((x : ℕ) → P (f x))
      → P (elim r [ none ↦ n | some x ↦ f x ])
  by_option P none p q = p
  by_option P (some x) p q = q x

  pub Good-trans : {t t1 : DeviceTree W} (w : Walk W) → Kept t t1 → Good t1 w → Good t w
  unfolding Good
  Good-trans (skipped skip t') k g = Kept-trans k g
  Good-trans (parser_error t') k g = Kept-trans k g
  Good-trans halted k g = tt
  Good-trans exhausted k g = tt

  -- A walk that goes on from where another one ends.
  pub goes_on :
      (t : DeviceTree W) (w : Walk W) (next : ℕ → DeviceTree W → Walk W)
      → Good t w
      → ((skip : ℕ) (t' : DeviceTree W) → Kept t t' → Good t (next skip t'))
      → Good t (elim w [
        | skipped skip t' ↦ next skip t'
        | parser_error t' ↦ parser_error t'
        | halted ↦ halted
        | exhausted ↦ exhausted
      ])
  unfolding Good
  goes_on t (skipped skip t') next g k = k skip t' g
  goes_on t (parser_error t') next g k = g
  goes_on t halted next g k = tt
  goes_on t exhausted next g k = tt

  module _ (h : Heap W) where
    insert_data-Good :
        (ctx : Context) (id : ℕ) (name value : List ℕ) (ret : ℕ) (t : DeviceTree W)
        → IsTended t
        → occurs id t.root ≡ 1
        → Good t (insert_data ctx h (some id) name value ret t)
    unfolding Good insert_data
    insert_data-Good ctx id name value ret t k one = add_property-Kept h id name value t k one

    module _ (plenty : (n : ℕ) (w : W) → (h.malloc n w).0 ≡ true) where
      -- A value that was put on the heap leaves the tree as it was.
      Stored : DeviceTree W → Option (List ℕ × DeviceTree W) → Type 0
      Stored t none = Unit {0}
      Stored t (some (value, t')) = Kept t t'

      from_value :
          (t : DeviceTree W) (r : Option (List ℕ × DeviceTree W))
          (f : List ℕ → DeviceTree W → Walk W)
          → Stored t r
          → ((value : List ℕ) (t' : DeviceTree W) → Kept t t' → Good t (f value t'))
          → Good t (elim r [ none ↦ halted | some (value, t') ↦ f value t' ])
      unfolding Good Stored
      from_value t none f s k = tt
      from_value t (some (value, t')) f s k = k value t' s

      Stored-trans :
          {t t1 : DeviceTree W} (r : Option (List ℕ × DeviceTree W))
          → Kept t t1
          → Stored t1 r
          → Stored t r
      unfolding Stored
      Stored-trans none k s = tt
      Stored-trans (some (value, t')) k s = Kept-trans k s

      allocate-some :
          (ctx : Context) (size : ℕ) (t : DeviceTree W)
          → allocate ctx h size t ≡ some (record t { heap = (h.malloc size t.heap).1 })
      unfolding allocate
      allocate-some ctx size t = rw (plenty size t.heap) refl

      token_to_string-Stored :
          (ctx : Context) (token : Token) (t : DeviceTree W)
          → IsTended t
          → Stored t (token_to_string ctx h token t)
      unfolding Stored token_to_string
      token_to_string-Stored ctx token t k =
          rw (allocate-some ctx (extent token + 1) t, Stored, token_to_string)
            (with_heap (h.malloc (extent token + 1) t.heap).1 t k)

      token_to_integer_data-Stored :
          (ctx : Context) (token : Token) (t : DeviceTree W)
          → IsTended t
          → Stored t (token_to_integer_data ctx h token t)
      unfolding Stored token_to_integer_data
      token_to_integer_data-Stored ctx token t k =
          rw (allocate-some ctx 4 t, Stored, token_to_integer_data)
            (with_heap (h.malloc 4 t.heap).1 t k)

      insert_array-Good :
          (ctx : Context) (id : ℕ) (name : List ℕ) (i : ℕ) (t : DeviceTree W)
          → IsTended t
          → occurs id t.root ≡ 1
          → Good t (insert_array ctx h (some id) name i t)
      unfolding insert_array
      insert_array-Good ctx id name i t k one =
          by_option (Good t) (data_length ctx (ctx.tokens i).size (i + 1))
            (erred (with_heap t.heap t k))
            (λ cnt.
              let filled = with_heap (h.malloc cnt t.heap).1 t k in
              let t1 : DeviceTree W = record t { heap = (h.malloc cnt t.heap).1 } in
              let value = data_bytes ctx (ctx.tokens i).size (i + 1) in
              rw (plenty cnt t.heap) (
                Good-trans (insert_data ctx h (some id) name value ((ctx.tokens i).size + 2) t1)
                  filled
                  (insert_data-Good ctx id name value ((ctx.tokens i).size + 2) t1 filled.tended
                    one)))

      pub insert_pair-Good :
          (ctx : Context) (id : ℕ) (i : ℕ) (t : DeviceTree W)
          → IsTended t
          → occurs id t.root ≡ 1
          → Good t (insert_pair ctx h (some id) i t)
      unfolding insert_pair
      insert_pair-Good ctx id i t k one =
          from_value t (token_to_string ctx h (ctx.tokens i) t) _
            (token_to_string-Stored ctx (ctx.tokens i) t k)
            (λ name t1 s1.
              let value = ctx.tokens (i + 1) in
              by_type (Good t) value.type
                (from_value t (token_to_integer_data ctx h value t1) _
                  (Stored-trans (token_to_integer_data ctx h value t1) s1
                    (token_to_integer_data-Stored ctx value t1 s1.tended))
                  (λ number t2 s2.
                    Good-trans (insert_data ctx h (some id) name number 2 t2) s2
                      (insert_data-Good ctx id name number 2 t2 s2.tended (s2.nodes id one))))
                (erred s1)
                (Good-trans (insert_array ctx h (some id) name (i + 1) t1) s1
                  (insert_array-Good ctx id name (i + 1) t1 s1.tended (s1.nodes id one)))
                (from_value t (token_to_string ctx h value t1) _
                  (Stored-trans (token_to_string ctx h value t1) s1
                    (token_to_string-Stored ctx value t1 s1.tended))
                  (λ text t2 s2.
                    Good-trans (insert_data ctx h (some id) name (text ++ 0 ∷ []) 2 t2) s2 (
                      insert_data-Good ctx id name (text ++ 0 ∷ []) 2 t2 s2.tended
                        (s2.nodes id one))))
                (erred s1))
