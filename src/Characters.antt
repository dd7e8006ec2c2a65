-- ===== src/Characters.antt =====
-- src/text.rs, and the standard library's classes of characters. A text is the list of its Unicode
-- scalar values here.
use kohaku.Base.{
  ℕ, ◌+◌, Bool, not, ◌&&◌, ◌||◌, List, [], ◌∷◌, map, any, ltb, leb, ◌==◌, if◌then◌else◌,
}
use kohaku.Base.Text.{trim_matches}

abbrev pub in_range : ℕ → ℕ → ℕ → Bool
in_range first last c = leb first c && leb c last

-- `char::is_control`: category Cc.
abbrev pub is_control : ℕ → Bool
is_control c = ltb c 32 || in_range 127 159 c

-- `char::is_whitespace`: the property White_Space.
unfoldable pub is_whitespace : ℕ → Bool
is_whitespace c =
    in_range 9 13 c
    || ((c == 32)
        || ((c == 133)
            || ((c == 160)
                || ((c == 5760)
                    || (in_range 8192 8202 c
                        || (in_range 8232 8233 c
                            || ((c == 8239) || ((c == 8287) || (c == 12288)))))))))

-- `str::trim`.
unfoldable pub trim : List ℕ → List ℕ
trim = trim_matches is_whitespace

-- `char::len_utf8` and `str::len`.
abbrev pub len_utf8 : ℕ → ℕ
len_utf8 c = if ltb c 128 then 1 else if ltb c 2048 then 2 else if ltb c 65536 then 3 else 4

abbrev pub utf8_length : List ℕ → ℕ
utf8_length [] = 0
utf8_length (c ∷ cs) = len_utf8 c + utf8_length cs

unfoldable pub is_hiding : ℕ → Bool
is_hiding c =
    is_control c
    || ((c == 0x2028)
        || ((c == 0x2029)
            || ((c == 0xAD)
                || ((c == 0x61C)
                    || ((c == 0x180E)
                        || (in_range 0x200B 0x200F c
                            || (in_range 0x202A 0x202E c
                                || (in_range 0x2060 0x2064 c
                                    || (in_range 0x2066 0x206F c
                                        || ((c == 0xFEFF)
                                            || (in_range 0xFFF9 0xFFFB c
                                                || in_range 0xE0000 0xE007F c)))))))))))

unfoldable pub is_single_line : List ℕ → Bool
is_single_line text = not (any is_hiding text)

unfoldable pub is_multi_line : List ℕ → Bool
is_multi_line text = not (any (λ c. not (c == 10) && is_hiding c) text)

-- `replace("\r\n", "\n")`.
unfoldable pub crlf_to_lf : List ℕ → List ℕ
crlf_to_lf [] = []
crlf_to_lf (c ∷ []) = c ∷ []
crlf_to_lf (c ∷ d ∷ cs) =
    let pair = 10 ∷ crlf_to_lf cs in
    let single = c ∷ crlf_to_lf (d ∷ cs) in if (c == 13) && (d == 10) then pair else single

unfoldable pub normalize_line_endings : List ℕ → List ℕ
normalize_line_endings text = map (λ c. if c == 13 then 10 else c) (crlf_to_lf text)
