-- ===== src/GoText/Ascii.antt =====
-- The tables of package unicode on ASCII, which the tests run with.
use role_model.Prelude.{ℕ, ◌+◌, Bool, ◌&&◌, ◌||◌, leb, ◌==◌, if◌then◌else◌}
use role_model.GoText.{Unicode}

abbrev upper : ℕ → Bool
upper c = leb b'A' c && leb c b'Z'

abbrev lower : ℕ → ℕ
lower c = if upper c then c + 32 else c

instance abbrev pub ascii : Unicode
ascii = record {
  is_letter = λ c. upper c || (leb b'a' c && leb c b'z');
  is_digit = λ c. leb b'0' c && leb c b'9';
  is_space = λ c. c == 0x20 || (leb 9 c && leb c 13);
  rune_lower = lower;
  fold = lower;
}
