-- ===== src/Prelude/Atoi.antt =====
-- atoi(3) and the tests of <ctype.h> on ASCII bytes, in the C locale.
use the_linux_programming_in.Prelude.{
  ℕ, ◌+◌, ◌-◌, ◌*◌, Bool, ◌&&◌, ◌||◌, [], ◌∷◌, leb, ◌==◌, if◌then◌else◌, Bytes,
}
use the_linux_programming_in.Prelude.Int.{ℤ, pos, sub_ℕ}

abbrev pub isdigit : ℕ → Bool
isdigit c = leb b'0' c && leb c b'9'

abbrev pub isspace : ℕ → Bool
isspace c = c == 32 || leb 9 c && leb c 13

abbrev pub skip_spaces : Bytes → Bytes
skip_spaces [] = []
skip_spaces (c ∷ s) = if isspace c then skip_spaces s else c ∷ s

-- The digits at the front, onto the value so far
abbrev pub digits_value : ℕ → Bytes → ℕ
digits_value acc [] = acc
digits_value acc (c ∷ s) = if isdigit c then digits_value (acc * 10 + (c - b'0')) s else acc

-- Values beyond the range of an `int`, for which the C standard says nothing, are kept as they are.
unfoldable pub atoi : Bytes → ℤ
atoi s = elim (skip_spaces s) [
  | [] ↦ pos 0
  | c ∷ r ↦
      if c == b'-'
      then sub_ℕ 0 (digits_value 0 r)
      else (if c == b'+' then pos (digits_value 0 r) else pos (digits_value 0 (c ∷ r)))
]
