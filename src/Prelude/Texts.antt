-- ===== src/Prelude/Texts.antt =====
-- Texts as Rust's `str` reads them: white space, control characters, lengths, bytes.
use Prim.Native.Nat.{ℕ, suc, ◌+◌, ◌-◌, ◌/◌, ◌%◌}
use Prim.Native.Char.{Char, code}
use Prim.Native.String.{String, [], ◌∷◌, slice, ◌++◌ as append}
use mathlib.Core.Bool.{Bool, true, false, ◌&&◌, ◌||◌}
use mathlib.Core.List
use mathlib.Core.List.{List}
use tree_ring_memory.Prelude.Tests.{leb, ltb, eqb, if◌then◌else◌}

-- `char::is_whitespace`: the code points with the Unicode property White_Space.
unfoldable pub is_whitespace : ℕ → Bool
is_whitespace c =
    leb 9 c && leb c 13
    || eqb c 32
    || eqb c 0x85
    || eqb c 0xa0
    || eqb c 0x1680
    || leb 0x2000 c && leb c 0x200a
    || eqb c 0x2028
    || eqb c 0x2029
    || eqb c 0x202f
    || eqb c 0x205f
    || eqb c 0x3000

-- `char::is_control`: the general category Cc.
unfoldable pub is_control : ℕ → Bool
is_control c = ltb c 32 || leb 127 c && leb c 159

-- `text.trim().is_empty()`
unfoldable pub is_blank : String → Bool
unfolding is_whitespace
is_blank [] = true
is_blank (c ∷ s) = is_whitespace (code c) && is_blank s

-- `text.chars().any(char::is_control)`
unfoldable pub has_control : String → Bool
unfolding is_control
has_control [] = false
has_control (c ∷ s) = is_control (code c) || has_control s

-- `text.chars().count()`
unfoldable pub chars_count : String → ℕ
chars_count [] = 0
chars_count (c ∷ s) = suc (chars_count s)

-- `texts.join(separator)`
unfoldable pub join : String → List String → String
join sep List.[] = []
join sep (List.◌∷◌ x List.[]) = x
join sep (List.◌∷◌ x (List.◌∷◌ y rest)) = append x (append sep (join sep (List.◌∷◌ y rest)))

-- One code point as UTF-8.
unfoldable pub utf8_char : ℕ → List ℕ
utf8_char c =
    if ltb c 0x80
    then List.◌∷◌ c List.[]
    else if ltb c 0x800
    then List.◌∷◌ (0xc0 + c / 64) (List.◌∷◌ (0x80 + c % 64) List.[])
    else if ltb c 0x10000
    then List.◌∷◌ (0xe0 + c / 4096)
        (List.◌∷◌ (0x80 + c / 64 % 64) (List.◌∷◌ (0x80 + c % 64) List.[]))
    else List.◌∷◌ (0xf0 + c / 262144) (
        List.◌∷◌ (0x80 + c / 4096 % 64)
          (List.◌∷◌ (0x80 + c / 64 % 64) (List.◌∷◌ (0x80 + c % 64) List.[])))

-- `text.as_bytes()`
unfoldable pub as_bytes : String → List ℕ
unfolding utf8_char
as_bytes [] = List.[]
as_bytes (c ∷ s) = List.◌++◌ (utf8_char (code c)) (as_bytes s)

unfoldable trim_start : String → String
trim_start [] = []
trim_start (c ∷ s) = let rest = trim_start s in if is_whitespace (code c) then rest else c ∷ s

unfoldable trim_end : String → String
trim_end [] = []
trim_end (c ∷ s) = if is_whitespace (code c) && is_blank s then [] else c ∷ trim_end s

-- `text.trim()`
unfoldable pub trim : String → String
unfolding trim_start trim_end is_whitespace is_blank
trim s = trim_start (trim_end s)

-- A character in lower case, if it is an ASCII letter.
unfoldable lower_char : Char → String
lower_char c =
    if leb b'A' (code c) && leb (code c) b'Z'
    then slice "abcdefghijklmnopqrstuvwxyz" (code c - b'A') (suc (code c - b'A'))
    else c ∷ []

-- `text.to_ascii_lowercase()`
unfoldable pub to_ascii_lowercase : String → String
unfolding lower_char
to_ascii_lowercase [] = []
to_ascii_lowercase (c ∷ s) = append (lower_char c) (to_ascii_lowercase s)

-- `text.replace([first, second], "")` for two ASCII characters
unfoldable pub remove_chars : ℕ → ℕ → String → String
remove_chars first second [] = []
remove_chars first second (c ∷ s) =
    let rest = remove_chars first second s in
    if eqb (code c) first || eqb (code c) second then rest else c ∷ rest

-- `text.starts_with(prefix)`
unfoldable pub starts_with : String → String → Bool
starts_with [] text = true
starts_with (c ∷ s) [] = false
starts_with (c ∷ s) (d ∷ t) = eqb (code c) (code d) && starts_with s t

-- `text.contains(part)`
unfoldable pub contains_text : String → String → Bool
unfolding starts_with
contains_text part [] = starts_with part []
contains_text part (d ∷ t) = starts_with part (d ∷ t) || contains_text part t

-- `text.replace('"', "\"\"")`
unfoldable pub double_quotes : String → String
double_quotes [] = []
double_quotes (c ∷ s) =
    let rest = double_quotes s in if eqb (code c) b'"' then c ∷ c ∷ rest else c ∷ rest
