-- ===== src/Samples.antt =====
-- Decimal printing, for the tests: what Python's `str` returns for a number.
use korea_public_data_be.Base.{ℕ, zero, suc, ◌/◌, ◌%◌, String, [], ◌∷◌, ltb, format, if◌then◌else◌}

digit : ℕ → String
digit zero = "0"
digit (suc zero) = "1"
digit (suc (suc zero)) = "2"
digit (suc (suc (suc zero))) = "3"
digit (suc (suc (suc (suc zero)))) = "4"
digit (suc (suc (suc (suc (suc zero))))) = "5"
digit (suc (suc (suc (suc (suc (suc zero)))))) = "6"
digit (suc (suc (suc (suc (suc (suc (suc zero))))))) = "7"
digit (suc (suc (suc (suc (suc (suc (suc (suc zero)))))))) = "8"
digit _ = "9"

-- At most `fuel` digits.
digits : ℕ → ℕ → String
unfolding format digit
digits zero n = ""
digits (suc fuel) n =
    let front = digits fuel (n / 10) in
    if ltb n 10 then digit n else format (front ∷ digit (n % 10) ∷ [])

unfoldable pub decimal : ℕ → String
unfolding digits
decimal n = digits 20 n
