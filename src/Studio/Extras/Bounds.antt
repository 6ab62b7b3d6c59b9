-- ===== src/Studio/Extras/Bounds.antt =====
-- The line of signal strengths stays in its buffer.
use totem_zmk_config.Prelude.{
  ℕ, ◌+◌, ◌≤◌, ◌<◌, ◌≡◌, arith, List, [], ◌∷◌, ◌++◌, ℤ, magnitude, All, Option,
}
use totem_zmk_config.Host.{Conn}
use totem_zmk_config.Studio.Extras.{Text, RssiAcc, text_of, read_conn_rssi, rssi_one, rssi_all}

module _ (line_max : ℕ) (text_len : Text → ℤ) where
  -- The characters of the texts that were written.
  abbrev pub written : List Text → ℕ
  written [] = 0
  written (t ∷ ts) = magnitude (text_len t) + written ts

  written-append : (ts us : List Text) → written (ts ++ us) ≡ written ts + written us
  written-append [] us = omega arith
  written-append (t ∷ ts) us = omega (arith, written-append ts us)

  -- `n` is the length of the line, which leaves room for its final zero byte.
  pub record IsRoomy (acc : RssiAcc) : Type 0 where
    pub fits : acc.n < line_max
    pub exact : acc.n ≡ written acc.line

  one-IsRoomy :
      (c : Conn × Option ℤ) (acc : RssiAcc)
      → 16 < line_max
      → magnitude (text_len (text_of c.0 (read_conn_rssi c.1))) ≤ 16
      → IsRoomy acc
      → IsRoomy (rssi_one line_max text_len c acc)
  unfolding rssi_one
  one-IsRoomy (c, answer) acc big short v =
      let text = text_of c (read_conn_rssi answer) in
      ground (arith, written-append acc.line (text ∷ []))

  -- With texts of at most 16 characters, and a buffer of more, no text is ever cut off and none is
  -- written behind the buffer's end, however many links there are: the counted length is that of
  -- the line, and a byte is left for its final zero.
  pub rssi_all-IsRoomy :
      (cs : List (Conn × Option ℤ)) (acc : RssiAcc)
      → 16 < line_max
      → All (λ c. magnitude (text_len (text_of c.0 (read_conn_rssi c.1))) ≤ 16) cs
      → IsRoomy acc
      → IsRoomy (rssi_all line_max text_len cs acc)
  unfolding rssi_all
  rssi_all-IsRoomy [] acc big short v = v
  rssi_all-IsRoomy (c ∷ cs) acc big short v =
      rssi_all-IsRoomy cs (rssi_one line_max text_len c acc) big short.1
        (one-IsRoomy c acc big short.0 v)
