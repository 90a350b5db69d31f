-- ===== src/Jsmn.antt =====
-- serialize/jsmn.c: the tokenizer of device trees in JSON, built without JSMN_STRICT and without
-- JSMN_PARENT_LINKS. A text is the list of its bytes before the NUL; -1 is `none`.
pub mod Bounds
pub mod Parse
mod Tests
use xnu_uboot_arm.Base.{
  ℕ, zero, suc, ◌+◌, ◌-◌, Bool, true, false, ◌&&◌, ◌||◌, not, Option, none, some, List, [], ◌∷◌,
  ltb, leb, ◌==◌, if◌then◌else◌, get_or, drop, set, length,
}

-- `jsmntype_t`
pub data TokenType : Type 0 where
  primitive object array string children_token : TokenType

abbrev pub same_type : TokenType → TokenType → Bool
same_type object object = true
same_type array array = true
same_type primitive primitive = true
same_type string string = true
same_type children_token children_token = true
same_type _ _ = false

-- `jsmnerr_t`
pub data Error : Type 0 where
  success nomem inval part : Error

-- `jsmntok_t`
pub record Token : Type 0 where
  pub type : TokenType
  pub start : Option ℕ
  pub end : Option ℕ
  pub size : ℕ

-- `jsmn_parser`, and the array of tokens.
pub record Parser : Type 0 where
  pub pos : ℕ
  pub toknext : ℕ
  pub toksuper : Option ℕ
  pub tokens : List Token

-- What a slot past the array would hold; no such slot is read.
abbrev pub no_token : Token
no_token = record { type = primitive; start = none; end = none; size = 0 }

abbrev pub at : List ℕ → ℕ → ℕ
at js i = get_or js i 0

abbrev pub token_at : Parser → ℕ → Token
token_at p i = get_or p.tokens i no_token

abbrev pub put_token : Parser → ℕ → Token → Parser
put_token p i t = record p { tokens = set p.tokens i t }

-- The index of the new token.
unfoldable pub jsmn_alloc_token : (num_tokens : ℕ) → Parser → Option (ℕ × Parser)
jsmn_alloc_token num_tokens p =
    if leb num_tokens p.toknext
    then none
    else some (
      p.toknext,
      record (put_token p p.toknext
          (record (token_at p p.toknext) { start = none; end = none; size = 0 })) {
            toknext = p.toknext + 1;
          },
    )

abbrev pub jsmn_fill_token : TokenType → (start end : ℕ) → Token
jsmn_fill_token type start end = record {
  type = type;
  start = some start;
  end = some end;
  size = 0;
}

-- ':', blanks, ',', ']' and '}'
abbrev pub ends_primitive : ℕ → Bool
ends_primitive c =
    c == 58 || c == 9 || c == 13 || c == 10 || c == 32 || c == 44 || c == 93 || c == 125

-- The loop of `jsmn_parse_primitive` over the text from `pos` on: where it ends.
unfoldable pub primitive_end : List ℕ → (pos : ℕ) → Option ℕ
primitive_end [] pos = some pos
primitive_end (c ∷ r) pos = elim (ends_primitive c) [
  | true ↦ some pos
  | false ↦ elim (ltb c 32 || leb 127 c) [ true ↦ none | false ↦ primitive_end r (pos + 1) ]
]

unfoldable pub jsmn_parse_primitive : (js : List ℕ) (num_tokens : ℕ) → Parser → Error × Parser
jsmn_parse_primitive js num_tokens p = elim (primitive_end (drop p.pos js) p.pos) [
  | none ↦ (inval, p)
  | some end ↦ elim (jsmn_alloc_token num_tokens p) [
    | none ↦ (nomem, p)
    | some (i, p') ↦
        (success, record (put_token p' i (jsmn_fill_token primitive p.pos end)) { pos = end - 1 })
  ]
]

-- What may follow a backslash: '"', ''', '/', '\', 'b', 'f', 'r', 'n', 't' and 'u'.
abbrev pub is_escape : ℕ → Bool
is_escape c =
    c == 34
    || c == 39
    || c == 47
    || c == 92
    || c == 98
    || c == 102
    || c == 114
    || c == 110
    || c == 116
    || c == 117

pub data StringEnd : Type 0 where
  closed : (pos : ℕ) → StringEnd
  bad_escape unclosed : StringEnd

-- The loop of `jsmn_parse_string` over the text from `pos` on.
unfoldable pub string_end : (delim : ℕ) → List ℕ → (pos : ℕ) → StringEnd
string_end delim [] pos = unclosed
string_end delim (c ∷ []) pos =
    if c == delim then closed pos else if c == 92 then bad_escape else unclosed
string_end delim (c ∷ e ∷ r) pos = elim (c == delim) [
  | true ↦ closed pos
  | false ↦ elim (c == 92) [
    | false ↦ string_end delim (e ∷ r) (pos + 1)
    | true ↦ elim (is_escape e) [ false ↦ bad_escape | true ↦ string_end delim r (pos + 2) ]
  ]
]

unfoldable pub jsmn_parse_string : (js : List ℕ) (num_tokens delim : ℕ) → Parser → Error × Parser
jsmn_parse_string js num_tokens delim p =
    elim (string_end delim (drop (p.pos + 1) js) (p.pos + 1)) [
      | unclosed ↦ (part, p)
      | bad_escape ↦ (inval, p)
      | closed end ↦ elim (jsmn_alloc_token num_tokens p) [
        | none ↦ (nomem, p)
        | some (i, p') ↦ (
          success,
          record (put_token p' i (jsmn_fill_token string (p.pos + 1) end)) { pos = end },
        )
      ]
    ]

-- `none` where the search for the end of the comment leaves the text.
unfoldable pub jsmn_comment_length : List ℕ → Option ℕ
jsmn_comment_length [] = none
jsmn_comment_length (c ∷ r) = elim (c == 42 && at r 0 == 47) [
  | true ↦ some 1
  | false ↦ elim (jsmn_comment_length r) [ none ↦ none | some len ↦ some (len + 1) ]
]

abbrev pub is_open : Token → Bool
is_open t = elim t.start [ none ↦ false | some s ↦ elim t.end [ none ↦ true | some e ↦ false ] ]

-- The last of the first `n` tokens that is open.
unfoldable pub find_open : Parser → (n : ℕ) → Option ℕ
find_open p zero = none
find_open p (suc n) = elim (is_open (token_at p n)) [ true ↦ some n | false ↦ find_open p n ]

-- `if (parser->toksuper != -1) tokens[parser->toksuper].size++;`
unfoldable pub count_child : Parser → Parser
count_child p = elim p.toksuper [
  | none ↦ p
  | some super ↦
      put_token p super (record (token_at p super) { size = (token_at p super).size + 1 })
]

-- '@', a children token; and '{' or '[', an open token.
unfoldable pub add_children_token : (num_tokens : ℕ) → Parser → Error × Parser
add_children_token num_tokens p = elim (jsmn_alloc_token num_tokens p) [
  | none ↦ (nomem, p)
  | some (i, p') ↦ (
    success,
    count_child (
        put_token p' i
          (record (token_at p' i) { type = children_token; start = some p.pos; end = some p.pos })),
  )
]

unfoldable pub open_token : (num_tokens : ℕ) → TokenType → Parser → Error × Parser
open_token num_tokens type p = elim (jsmn_alloc_token num_tokens p) [
  | none ↦ (nomem, p)
  | some (i, p') ↦
      let counted = count_child p' in
      (
        success,
        record (put_token counted i
            (record (token_at counted i) { type = type; start = some p.pos })) {
              toksuper = some (counted.toknext - 1);
            },
      )
]

-- '}' or ']': the last open token is closed, and the one open before it counts the children.
unfoldable pub close_token : TokenType → Parser → Error × Parser
close_token type p = elim (find_open p p.toknext) [
  | none ↦ (inval, p)
  | some i ↦ elim (same_type (token_at p i).type type) [
    | false ↦ (inval, p)
    | true ↦
        let closed = put_token p i (record (token_at p i) { end = some (p.pos + 1) }) in
        (success, record closed { toksuper = find_open closed (suc i) })
  ]
]

abbrev pub counted : Error × Parser → Error × Parser
counted (success, p) = (success, count_child p)
counted (e, p) = (e, p)

-- A character that no token begins with.
abbrev pub is_blank : ℕ → Bool
is_blank c = c == 9 || c == 13 || c == 10 || c == 58 || c == 44 || c == 32

-- The body of the loop of `jsmn_parse`; `none` where a comment leads out of the text.
unfoldable pub parse_char : (js : List ℕ) (num_tokens : ℕ) → Parser → Option (Error × Parser)
parse_char js num_tokens p =
    let c = at js p.pos in
    if c == 47
    then elim (jsmn_comment_length (drop p.pos js)) [
      | none ↦ none
      | some len ↦ some (success, record p { pos = p.pos + len })
    ]
    else if c == 64
    then some (add_children_token num_tokens p)
    else if c == 123
    then some (open_token num_tokens object p)
    else if c == 91
    then some (open_token num_tokens array p)
    else if c == 125
    then some (close_token object p)
    else if c == 93
    then some (close_token array p)
    else if c == 39 || c == 34
    then some (counted (jsmn_parse_string js num_tokens c p))
    else if is_blank c
    then some (success, p)
    else some (counted (jsmn_parse_primitive js num_tokens p))

pub data Parsed : Type 0 where
  parsed : Error → Parser → Parsed
  overread out_of_fuel : Parsed

unfoldable pub parse_loop : (fuel : ℕ) (js : List ℕ) (num_tokens : ℕ) → Parser → Parsed
parse_loop zero js num_tokens p = out_of_fuel
parse_loop (suc fuel) js num_tokens p = elim (at js p.pos == 0) [
  | true ↦ elim (find_open p p.toknext) [ none ↦ parsed success p | some i ↦ parsed part p ]
  | false ↦ elim (parse_char js num_tokens p) [
    | none ↦ overread
    | some (success, p') ↦ parse_loop fuel js num_tokens (record p' { pos = p'.pos + 1 })
    | some (e, p') ↦ parsed e p'
  ]
]

-- Each round moves on in the text.
unfoldable pub jsmn_parse : (js : List ℕ) (num_tokens : ℕ) → Parser → Parsed
jsmn_parse js num_tokens p = parse_loop (length js + 1) js num_tokens p

unfoldable pub jsmn_init : Parser → Parser
jsmn_init p = record p { pos = 0; toknext = 0; toksuper = none }
