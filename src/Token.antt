-- ===== src/Token.antt =====
-- The tokens of the language, src/reir/exec/token.hpp: the token types and their names, reserved
-- words, symbols and operators.
pub mod Reserved
use reir.Prelude.{
  ℕ, zero, suc, ◌+◌, ◌-◌, ◌%◌, ◌^◌, bit_and, Bool, true, false, List, [], ◌∷◌, map, Option, none,
  some, Bytes, codes, ◌==◌, if◌then◌else◌, bytes_eq, take, drop, zip, Result, ok, abort,
}

-- The enumerators up to `reserved_splitter`, then the reserved words.
pub data TokenType : Type 0 where
  identifier string_literal reserved number float : TokenType
  open_brace close_brace open_paren close_paren open_bracket close_bracket : TokenType
  open_angle close_angle comma asterisk slash plus minus colon semicolon period : TokenType
  equal and percent : TokenType
  equal_equal exclamation_mark_equal open_angle_equal close_angle_equal : TokenType
  plus_equal minus_equal asterisk_equal slash_equal percent_equal and_and or_or : TokenType
  reserved_splitter type int define let_ transaction serializable if_ else_ for_ : TokenType
  emit insert scan break continue tuple : TokenType
  invalid : TokenType

-- The enumerator as a `size_t`, and the `==` of two enumerators.
unfoldable pub ordinal : TokenType → ℕ
ordinal identifier = 0
ordinal string_literal = 1
ordinal reserved = 2
ordinal number = 3
ordinal float = 4
ordinal open_brace = 5
ordinal close_brace = 6
ordinal open_paren = 7
ordinal close_paren = 8
ordinal open_bracket = 9
ordinal close_bracket = 10
ordinal open_angle = 11
ordinal close_angle = 12
ordinal comma = 13
ordinal asterisk = 14
ordinal slash = 15
ordinal plus = 16
ordinal minus = 17
ordinal colon = 18
ordinal semicolon = 19
ordinal period = 20
ordinal equal = 21
ordinal and = 22
ordinal percent = 23
ordinal equal_equal = 24
ordinal exclamation_mark_equal = 25
ordinal open_angle_equal = 26
ordinal close_angle_equal = 27
ordinal plus_equal = 28
ordinal minus_equal = 29
ordinal asterisk_equal = 30
ordinal slash_equal = 31
ordinal percent_equal = 32
ordinal and_and = 33
ordinal or_or = 34
ordinal reserved_splitter = 35
ordinal type = 36
ordinal int = 37
ordinal define = 38
ordinal let_ = 39
ordinal transaction = 40
ordinal serializable = 41
ordinal if_ = 42
ordinal else_ = 43
ordinal for_ = 44
ordinal emit = 45
ordinal insert = 46
ordinal scan = 47
ordinal break = 48
ordinal continue = 49
ordinal tuple = 50
ordinal invalid = 51

unfoldable pub same : TokenType → TokenType → Bool
unfolding ordinal
same a b = ordinal a == ordinal b

-- `token_type(i)` for each `i`, in order.
abbrev pub token_types : List TokenType
token_types =
    identifier ∷ string_literal ∷ reserved ∷ number ∷ float ∷ open_brace ∷ close_brace ∷ open_paren
    ∷ close_paren ∷ open_bracket ∷ close_bracket ∷ open_angle ∷ close_angle ∷ comma ∷ asterisk
    ∷ slash ∷ plus ∷ minus ∷ colon ∷ semicolon ∷ period ∷ equal ∷ and ∷ percent ∷ equal_equal
    ∷ exclamation_mark_equal ∷ open_angle_equal ∷ close_angle_equal ∷ plus_equal ∷ minus_equal
    ∷ asterisk_equal ∷ slash_equal ∷ percent_equal ∷ and_and ∷ or_or ∷ reserved_splitter ∷ type
    ∷ int ∷ define ∷ let_ ∷ transaction ∷ serializable ∷ if_ ∷ else_ ∷ for_ ∷ emit ∷ insert ∷ scan
    ∷ break ∷ continue ∷ tuple ∷ invalid ∷ []

abbrev pub strs : List Bytes
strs = map codes (
    "IDENTIFIER" ∷ "STRING_LITERAL" ∷ "RESERVED" ∷ "NUMBER" ∷ "FLOAT" ∷ "OPEN_BRACE" ∷ "CLOSE_BRACE"
    ∷ "OPEN_PAREN" ∷ "CLOSE_PAREN" ∷ "OPEN_BRACKET" ∷ "CLOSE_BRACKET" ∷ "OPEN_ANGLE" ∷ "CLOSE_ANGLE"
    ∷ "COMMA" ∷ "ASTERISK" ∷ "SLASH" ∷ "PLUS" ∷ "MINUS" ∷ "COLON" ∷ "SEMICOLON" ∷ "PERIOD" ∷ "EQUAL"
    ∷ "AND" ∷ "PERCENT" ∷ "EQUAL_EQUAL" ∷ "EXCLAMATION_MARK_EQUAL" ∷ "OPEN_ANGLE_EQUAL"
    ∷ "CLOSE_ANGLE_EQUAL" ∷ "PLUS_EQUAL" ∷ "MINUS_EQUAL" ∷ "ASTERISK_EQUAL" ∷ "SLASH_EQUAL"
    ∷ "PERCENT_EQUAL" ∷ "AND_AND" ∷ "OR_OR" ∷ "reserved_splitter" ∷ "TYPE" ∷ "INT" ∷ "DEFINE"
    ∷ "LET" ∷ "TRANSACTION" ∷ "SERIALIZABLE" ∷ "IF" ∷ "ELSE" ∷ "FOR" ∷ "EMIT" ∷ "INSERT" ∷ "SCAN"
    ∷ "BREAK" ∷ "CONTINUE" ∷ "TUPLE" ∷ "INVALID" ∷ [])

-- `from` is one behind `reserved_splitter`, and `to` is `INVALID`.
abbrev pub from : ℕ
from = 36

abbrev pub to : ℕ
to = 51

-- The pairs (`strs[i]`, `token_type(i)`) for `from <= i < to`, in the order of the loops.
abbrev pub reserved_words : List (Bytes × TokenType)
reserved_words = take (to - from) (drop from (zip strs token_types))

-- `c & ~0x20` on a byte.
unfoldable pub capitalize : ℕ → ℕ
capitalize c = bit_and c 0xDF

unfoldable pub find_word : Bytes → List (Bytes × TokenType) → TokenType
find_word w [] = invalid
find_word w ((s, t) ∷ rest) = if bytes_eq w s then t else find_word w rest

unfoldable pub as_reserved : Bytes → TokenType
unfolding capitalize find_word bytes_eq
as_reserved word = find_word (map capitalize word) reserved_words

abbrev pub symbols : Bytes
symbols = codes "{}()[],:;"

abbrev pub numbers : Bytes
numbers = codes "1234567890"

abbrev pub operator_tokens : Bytes
operator_tokens = codes "+-*/%=!<>.&|"

abbrev pub symbol_list : List (ℕ × TokenType)
symbol_list =
    (b'{', open_brace)
    ∷ (b'}', close_brace)
    ∷ (b'(', open_paren)
    ∷ (b')', close_paren)
    ∷ (b'[', open_bracket)
    ∷ (b']', close_bracket)
    ∷ (b'<', open_angle)
    ∷ (b'>', close_angle)
    ∷ (b',', comma)
    ∷ (b'*', asterisk)
    ∷ (b'/', slash)
    ∷ (b'+', plus)
    ∷ (b'-', minus)
    ∷ (b':', colon)
    ∷ (b';', semicolon)
    ∷ (b'.', period)
    ∷ (b'=', equal)
    ∷ (b'&', and)
    ∷ (b'%', percent)
    ∷ []

unfoldable pub find_symbol : ℕ → List (ℕ × TokenType) → Result TokenType
find_symbol c [] = abort
find_symbol c ((s, t) ∷ rest) = if c == s then ok t else find_symbol c rest

-- The `switch`, a case at a time; `abort()` in the default case.
unfoldable pub symbol_token : ℕ → Result TokenType
unfolding find_symbol
symbol_token c = find_symbol c symbol_list

abbrev pub operator_token_list : List (Bytes × TokenType)
operator_token_list =
    (codes "==", equal_equal)
    ∷ (codes "!=", exclamation_mark_equal)
    ∷ (codes "<=", open_angle_equal)
    ∷ (codes ">=", close_angle_equal)
    ∷ (codes "+=", plus_equal)
    ∷ (codes "-=", minus_equal)
    ∷ (codes "*=", asterisk_equal)
    ∷ (codes "/=", slash_equal)
    ∷ (codes "%=", percent_equal)
    ∷ (codes "&&", and_and)
    ∷ (codes "||", or_or)
    ∷ []

unfoldable pub operator_token : Bytes → Result TokenType
unfolding symbol_token find_word bytes_eq
operator_token (c ∷ []) = symbol_token c
operator_token image = ok (find_word image operator_token_list)

-- `row` and `col` are `int`s, as patterns below 2 ^ 32.
pub record Token : Type 0 where
  pub type : TokenType
  pub text : Bytes
  pub row : ℕ
  pub col : ℕ
