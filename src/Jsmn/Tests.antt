-- ===== src/Jsmn/Tests.antt =====
-- Runs of the tokenizer, and its theorem at one.
use xnu_uboot_arm.Base.{◌≡◌, refl, none, some, List, [], ◌∷◌, codes, replicate, arith}
use xnu_uboot_arm.Jsmn.{
  Parser, Token, primitive, object, children_token, string, no_token, Parsed, parsed, overread,
  out_of_fuel, jsmn_alloc_token, jsmn_parse_primitive, primitive_end, string_end, jsmn_parse_string,
  jsmn_comment_length, find_open, count_child, add_children_token, open_token, close_token,
  parse_char, parse_loop, jsmn_parse,
}
use xnu_uboot_arm.Jsmn.Bounds.{IsWithin}
use xnu_uboot_arm.Jsmn.Parse.{Kept, jsmn_parse-Kept}

abbrev fresh : Parser
fresh = record { pos = 0; toknext = 0; toksuper = none; tokens = replicate 4 no_token }

abbrev tokens_of : Parsed → List Token
tokens_of (parsed e p) = p.tokens
tokens_of overread = []
tokens_of out_of_fuel = []

tokens :
    tokens_of (jsmn_parse (codes "{/* n */ 'a': 12 @}") 4 fresh)
    ≡ record { type = object; start = some 0; end = some 19; size = 3 }
      ∷ record { type = string; start = some 10; end = some 11; size = 0 }
      ∷ record { type = primitive; start = some 14; end = some 16; size = 0 }
      ∷ record { type = children_token; start = some 17; end = some 17; size = 0 }
      ∷ []
unfolding jsmn_parse parse_loop parse_char jsmn_alloc_token jsmn_parse_primitive primitive_end
    string_end jsmn_parse_string jsmn_comment_length find_open count_child add_children_token
    open_token close_token
tokens = refl

open_comment : jsmn_parse (codes "/* ") 4 fresh ≡ overread
unfolding jsmn_parse parse_loop parse_char jsmn_comment_length
open_comment = refl

fresh-IsWithin : IsWithin 4 fresh
fresh-IsWithin = record { in_array = omega arith; super_below = λ i e. absurd cc }

jsmn_parse-Kept_example : Kept (codes "{'a': 12") 4 fresh (jsmn_parse (codes "{'a': 12") 4 fresh)
jsmn_parse-Kept_example = jsmn_parse-Kept (codes "{'a': 12") 4 fresh fresh-IsWithin
