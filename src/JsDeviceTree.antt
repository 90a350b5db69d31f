-- ===== src/JsDeviceTree.antt =====
-- main/JS_device_tree.c: the device tree of a text in JSON, from the tokens of serialize/jsmn.c. The
-- code for a host (`HOST_CODE`) is not built. `node_count` is only printed.
pub mod Kept
pub mod Walks
pub mod Ends
mod Tests
use xnu_uboot_arm.Base.{
  ℕ, zero, suc, ◌+◌, ◌-◌, ◌*◌, Bool, true, false, not, Option, none, some, List, [], ◌∷◌, ◌++◌,
  ◌==◌, if◌then◌else◌, length, get_or, take, drop, add32, sub32, le32,
}
use xnu_uboot_arm.Strol.{strtoul}
use xnu_uboot_arm.Jsmn.{
  TokenType, primitive, object, array, string, children_token, Error, success, nomem, inval, part,
  Token, Parser, Parsed, parsed, overread, out_of_fuel, jsmn_parse, jsmn_init, no_token,
}
use xnu_uboot_arm.DeviceTree.{Heap, DeviceTree, add_property, add_child, initialize, root_node}

-- How a walk over tokens ends: with the number of tokens to skip; by PARSER_ERROR; by a failed
-- `assert`, or a write through a null pointer; or without fuel.
pub data Walk (W : Type 0) : Type 0 where
  skipped : (skip : ℕ) → DeviceTree W → Walk W
  parser_error : DeviceTree W → Walk W
  halted : Walk W
  exhausted : Walk W

-- `Context`, but for `node_count`. The tokens are the array and what lies behind it.
pub record Context : Type 0 where
  pub raw : List ℕ
  pub tokens : ℕ → Token

-- sizeof(jsmntok_t)
abbrev pub sizeof_token : ℕ
sizeof_token = 16

-- A position in the text; the strings and primitives of the tokenizer have both of theirs.
abbrev pub position : Option ℕ → ℕ
position none = 0
position (some p) = p

-- `token->end - token->start`
abbrev pub extent : Token → ℕ
extent token = position token.end - position token.start

module _ (ctx : Context) where
  abbrev pub text_of : Token → List ℕ
  text_of token = take (extent token) (drop (position token.start) ctx.raw)

  unfoldable pub value_of : Token → List ℕ
  value_of token = le32 (strtoul (drop (position token.start) ctx.raw) 0).0

  -- The bytes of the elements of an array, `i` on: none where one is neither text nor number.
  unfoldable pub data_length : (nested i : ℕ) → Option ℕ
  data_length zero i = some 0
  data_length (suc nested) i =
      let token = ctx.tokens i in
      elim (data_length nested (i + 1)) [
        | none ↦ none
        | some cnt ↦ elim token.type [
          | string ↦ some (extent token + 1 + cnt)
          | primitive ↦ some (4 + cnt)
          | object ↦ none
          | array ↦ none
          | children_token ↦ none
        ]
      ]

  unfoldable pub data_bytes : (nested i : ℕ) → List ℕ
  data_bytes zero i = []
  data_bytes (suc nested) i =
      let token = ctx.tokens i in
      let rest = data_bytes nested (i + 1) in
      elim token.type [
        | string ↦ text_of token ++ 0 ∷ rest
        | primitive ↦ value_of token ++ rest
        | object ↦ rest
        | array ↦ rest
        | children_token ↦ rest
      ]

  module _ {W : Type 0} (h : Heap W) where
    -- `buf = malloc(size); assert(buf)`
    unfoldable pub allocate : (size : ℕ) → DeviceTree W → Option (DeviceTree W)
    allocate size t =
        let (got, w) = h.malloc size t.heap in if got then some (record t { heap = w }) else none

    unfoldable pub token_to_string : Token → DeviceTree W → Option (List ℕ × DeviceTree W)
    token_to_string token t = elim (allocate (extent token + 1) t) [
      | none ↦ none
      | some t' ↦ some (text_of token, t')
    ]

    unfoldable pub token_to_integer_data : Token → DeviceTree W → Option (List ℕ × DeviceTree W)
    token_to_integer_data token t = elim (allocate 4 t) [
      | none ↦ none
      | some t' ↦ some (value_of token, t')
    ]

    -- `DT__AddProperty(node, keystr, bloblen, blobdata)`, which writes through a null `node`.
    unfoldable pub insert_data :
        (me : Option ℕ) → (name value : List ℕ) → (ret : ℕ) → DeviceTree W → Walk W
    insert_data none name value ret t = halted
    insert_data (some id) name value ret t = skipped ret (add_property h id name value t).1

    -- An array of data as the value of `name`. The buffer of `parse_data_array` is not tested: it is
    -- written through where it has any bytes.
    unfoldable pub insert_array :
        (me : Option ℕ) → (name : List ℕ) → (i : ℕ) → DeviceTree W → Walk W
    insert_array me name i t =
        let nested = (ctx.tokens i).size in
        elim (data_length nested (i + 1)) [
          | none ↦ parser_error t
          | some cnt ↦
              let (got, w) = h.malloc cnt t.heap in
              if not got
              then (if cnt == 0
                  then insert_data me name [] (nested + 2) (record t { heap = w })
                  else halted)
              else insert_data me name (data_bytes nested (i + 1)) (nested + 2)
                  (record t { heap = w })
        ]

    -- A key that is a text, and its value.
    unfoldable pub insert_pair : (me : Option ℕ) → (i : ℕ) → DeviceTree W → Walk W
    insert_pair me i t = elim (token_to_string (ctx.tokens i) t) [
      | none ↦ halted
      | some (name, t1) ↦
          let value = ctx.tokens (i + 1) in
          elim value.type [
            | string ↦ elim (token_to_string value t1) [
              | none ↦ halted
              | some (text, t2) ↦ insert_data me name (text ++ 0 ∷ []) 2 t2
            ]
            | primitive ↦ elim (token_to_integer_data value t1) [
              | none ↦ halted
              | some (number, t2) ↦ insert_data me name number 2 t2
            ]
            | array ↦ insert_array me name (i + 1) t1
            | object ↦ parser_error t1
            | children_token ↦ parser_error t1
          ]
    ]

    -- The walks go into each other; a round of a loop and a call each take one of the fuel.
    unfoldable mutual
      pub build_node : (fuel : ℕ) → (i : ℕ) → (me : Option ℕ) → DeviceTree W → Walk W
      build_node zero i me t = exhausted
      build_node (suc fuel) i me t = elim (ctx.tokens i).type [
        | object ↦ object_loop fuel (ctx.tokens i).size 1 i me t
        | primitive ↦ parser_error t
        | array ↦ parser_error t
        | string ↦ parser_error t
        | children_token ↦ parser_error t
      ]

      -- `while (nested != 0)`, two tokens of the object at a time: an odd number wraps.
      pub object_loop : (fuel : ℕ) → (nested j i : ℕ) → (me : Option ℕ) → DeviceTree W → Walk W
      object_loop zero nested j i me t = exhausted
      object_loop (suc fuel) nested j i me t = elim (nested == 0) [
        | true ↦ skipped j t
        | false ↦ elim (parse_in_node_token fuel (i + j) me t) [
          | skipped skip t' ↦ object_loop fuel (sub32 nested 2) (j + skip) i me t'
          | parser_error t' ↦ parser_error t'
          | halted ↦ halted
          | exhausted ↦ exhausted
        ]
      ]

      pub parse_in_node_token : (fuel : ℕ) → (i : ℕ) → (me : Option ℕ) → DeviceTree W → Walk W
      parse_in_node_token zero i me t = exhausted
      parse_in_node_token (suc fuel) i me t = elim (ctx.tokens i).type [
        | string ↦ insert_pair me i t
        | children_token ↦ elim (ctx.tokens (i + 1)).type [
          | array ↦ elim (walk_children fuel (ctx.tokens (i + 1)).size 1 (i + 1) me t) [
            | skipped skip t' ↦ skipped (skip + 1) t'
            | parser_error t' ↦ parser_error t'
            | halted ↦ halted
            | exhausted ↦ exhausted
          ]
          | primitive ↦ parser_error t
          | object ↦ parser_error t
          | string ↦ parser_error t
          | children_token ↦ parser_error t
        ]
        | primitive ↦ parser_error t
        | object ↦ parser_error t
        | array ↦ parser_error t
      ]

      -- The loop of `walk_children` over the array at `i`. The node is not tested for null.
      pub walk_children :
          (fuel : ℕ) → (nested j i : ℕ) → (parent : Option ℕ) → DeviceTree W → Walk W
      walk_children fuel zero j i parent t = skipped j t
      walk_children zero (suc nested) j i parent t = exhausted
      walk_children (suc fuel) (suc nested) j i parent t =
          let (me, t1) = add_child h parent none t in
          elim (build_node fuel (i + j) me t1) [
            | skipped skip t' ↦ walk_children fuel nested (j + skip) i parent t'
            | parser_error t' ↦ parser_error t'
            | halted ↦ halted
            | exhausted ↦ exhausted
          ]

-- `build_device_tree`: the tree is begun anew, and its root is the outermost node.
unfoldable pub build_device_tree :
    {W : Type 0} → Context → Heap W → (fuel : ℕ) → DeviceTree W → Walk W
build_device_tree ctx h fuel t =
    let begun = initialize h t in build_node ctx h fuel 0 (root_node begun) begun

-- How `parse_jsdt_device_tree` ends: it returns whether the text was a device tree; an `assert` or a
-- null pointer stops it, or a comment without end leads out of the text; or the fuel is used up.
pub data Result (W : Type 0) : Type 0 where
  returned : (ret : Bool) → DeviceTree W → Result W
  stopped : Result W
  no_fuel : Result W

-- What the heap puts into new tokens, and behind the array of them.
pub record Garbage : Type 0 where
  pub token : ℕ → Token

-- `n` tokens of a new array.
unfoldable pub new_tokens : (ℕ → Token) → (n i : ℕ) → List Token
new_tokens f zero i = []
new_tokens f (suc n) i = f i ∷ new_tokens f n (i + 1)

-- `free(tokens)`
unfoldable pub end_walk : {W : Type 0} → Heap W → Walk W → Result W
end_walk h (skipped skip t) = returned true (record t { heap = h.free t.heap })
end_walk h (parser_error t) = returned false (record t { heap = h.free t.heap })
end_walk h halted = stopped
end_walk h exhausted = no_fuel

module _ {W : Type 0} (h : Heap W) (garbage : Garbage) (raw : List ℕ) (fuel : ℕ) where
  abbrev pub context : List Token → Context
  context tokens = record { raw = raw; tokens = λ i. get_or tokens i (garbage.token i) }

  -- From `parse_again` on. `realloc` to more tokens keeps those that are there, and gives the old
  -- block back: the heap keeps the number of its blocks.
  unfoldable pub parse_again : (rounds token_cnt : ℕ) → List Token → DeviceTree W → Result W
  parse_again zero token_cnt tokens t = no_fuel
  parse_again (suc rounds) token_cnt tokens t =
      let begun = jsmn_init (record { pos = 0; toknext = 0; toksuper = none; tokens = tokens }) in
      elim (jsmn_parse raw token_cnt begun) [
        | overread ↦ stopped
        | out_of_fuel ↦ no_fuel
        | parsed e p ↦ elim e [
          | success ↦ end_walk h (build_device_tree (context p.tokens) h fuel t)
          | inval ↦ returned false (record t { heap = h.free t.heap })
          | part ↦ returned false (record t { heap = h.free t.heap })
          | nomem ↦
              let (got, w) = h.malloc (sizeof_token * (token_cnt + 100)) t.heap in
              elim got [
                | false ↦ stopped
                | true ↦
                    parse_again rounds (token_cnt + 100)
                      (p.tokens ++ new_tokens garbage.token 100 token_cnt)
                      (record t { heap = h.free w })
              ]
        ]
      ]

  unfoldable pub parse_jsdt_device_tree : DeviceTree W → Result W
  parse_jsdt_device_tree t =
      let (got, w) = h.malloc (sizeof_token * 40) t.heap in
      if got
      then parse_again (length raw + 1) 40 (new_tokens garbage.token 40 0) (record t { heap = w })
      else stopped
