-- ===== src/Extension/Tests.antt =====
-- Extensions at concrete inputs.
use srtc.Common.{
  ℕ, ◌+◌, ◌<◌, ◌≡◌, refl, List, [], ◌∷◌, ◌++◌, arith, none, some, length, true, false,
}
use srtc.Common.{Option, take, drop, min}
use srtc.Bytes.Reader.{reader, read_u8, read_u16, skip}
use srtc.Bytes.Writer.{write_u16, write_u32, write_u64}
use srtc.Extension.{
  Element, two_byte, is_empty, find_any, find_u16, find_number, as_number, find_loop, next_element,
  trim_padding, is_valid_extension_id,
}
use srtc.Extension.Elements.{padding, next_element-encode}
use srtc.Extension.Lookup.{
  encode_all, find, find_any_answers, find_any-encode_all, trim_padding-encode_all,
}
use srtc.Extension.Builder.{
  add_string_value, add_binary_value, add_u16_value, add_u32_value, add_u64_value, contains,
  add_or_replace_u16_value, put_u16, position_loop, read_header,
}
use srtc.Extension.Build.{
  element, add_string_value-append, add_numbers-append, add_binary_value_overrun,
}
use srtc.Extension.Search.{has_id, contains-encode_all, contains_misses_empty}

abbrev elements : List Element
elements = element 1 (0x12 ∷ 0x34 ∷ []) ∷ element 2 (7 ∷ []) ∷ []

two_byte_valid : is_valid_extension_id two_byte ≡ true
unfolding is_valid_extension_id
two_byte_valid = refl

find_u16-two_byte :
    find_u16 (record { id = two_byte; bytes = encode_all two_byte elements }) 1 ≡ some (some 0x1234)
unfolding find_u16 find_number as_number find_any find_loop next_element is_empty skip reader
    read_u8 read_u16
find_u16-two_byte = refl

replace_u16 :
    add_or_replace_u16_value (encode_all two_byte elements) 1 0xabcd
    ≡ some (1 ∷ 2 ∷ 0xab ∷ 0xcd ∷ 2 ∷ 1 ∷ 7 ∷ [])
unfolding add_or_replace_u16_value put_u16 position_loop read_header read_u8 reader
replace_u16 = refl

next_element-encode_example :
    next_element two_byte (record { rest = 1 ∷ 2 ∷ 3 ∷ 4 ∷ 9 ∷ []; pos = 5 })
    ≡ some (some (element 1 (3 ∷ 4 ∷ [])), record { rest = 9 ∷ []; pos = 5 + 4 })
next_element-encode_example =
    next_element-encode (element 1 (3 ∷ 4 ∷ [])) (9 ∷ []) 5 two_byte two_byte_valid (omega arith)

find_any_answers_example :
    (found : Option (List ℕ)) × (find_any (record { id = 0xbede; bytes = 0x13 ∷ 1 ∷ [] }) 1
      ≡ some found)
find_any_answers_example = find_any_answers (record { id = 0xbede; bytes = 0x13 ∷ 1 ∷ [] }) 1

padded_not_empty :
    is_empty (record { id = two_byte; bytes = encode_all two_byte elements ++ (0 ∷ []) }) ≡ false
unfolding is_empty
padded_not_empty = refl

find_any-encode_all_example :
    find_any (record { id = two_byte; bytes = encode_all two_byte elements ++ (0 ∷ []) }) 2
    ≡ some (find elements 2)
find_any-encode_all_example =
    find_any-encode_all two_byte two_byte_valid elements (0 ∷ []) (padding []) (omega arith) 2
      padded_not_empty

trim_padding-encode_all_example :
    trim_padding (record { id = two_byte; bytes = encode_all two_byte elements ++ (0 ∷ []) })
    ≡ some (record { id = two_byte; bytes = encode_all two_byte elements })
trim_padding-encode_all_example =
    trim_padding-encode_all two_byte two_byte_valid elements (0 ∷ []) (padding []) (omega arith)
      padded_not_empty

add_string_value-append_example :
    add_string_value (encode_all two_byte elements) 9 (102 ∷ 111 ∷ [])
    ≡ encode_all two_byte (elements ++ (element 9 (102 ∷ 111 ∷ []) ∷ []))
add_string_value-append_example = add_string_value-append elements 9 (omega arith) (102 ∷ 111 ∷ [])

add_numbers-append_example :
    (add_u16_value (encode_all two_byte elements) 9 513
      ≡ encode_all two_byte (elements ++ (element 9 (write_u16 [] 513) ∷ [])))
    × (add_u32_value (encode_all two_byte elements) 9 513
        ≡ encode_all two_byte (elements ++ (element 9 (write_u32 [] 513) ∷ [])))
    × (add_u64_value (encode_all two_byte elements) 9 513
        ≡ encode_all two_byte (elements ++ (element 9 (write_u64 [] 513) ∷ [])))
add_numbers-append_example = add_numbers-append elements 9 (omega arith) 513

abbrev long_value : List ℕ
long_value = srtc.Common.replicate 300 65

add_binary_value_overrun_example :
    add_binary_value [] 1 long_value ≡ add_string_value [] 1 long_value ++ drop 255 long_value
add_binary_value_overrun_example = add_binary_value_overrun [] long_value 1 (omega arith)

contains-encode_all_example : contains (encode_all two_byte elements) 2 ≡ some (has_id elements 2)
contains-encode_all_example = contains-encode_all elements 2 (omega arith)

contains_misses_empty_example :
    contains (encode_all two_byte elements ++ (3 ∷ 0 ∷ [])) 3 ≡ some false
contains_misses_empty_example = contains_misses_empty elements 3 (omega arith) refl
