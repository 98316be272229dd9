-- ===== src/Rewrite/Smoothing/Reference.antt =====
-- What set_SN_function of src/rewrite.c means to do, in terms of the numbers alone: a stream goes on
-- where the stream before it ended.
use lbm_rtp_proxy.Base.{
  ℕ, ◌+◌, ◌-◌, ◌%◌, ◌^◌, ◌<◌, ◌≡◌, ◌≢◌, refl, arith, List, [], ◌∷◌, All, ltb, leb, ◌&&◌,
  if◌then◌else◌, is_set, Bool-cases, inl, inr,
}
use lbm_rtp_proxy.Table.{TableEntry, IsEntry}
use lbm_rtp_proxy.Rewrite.Smoothing.{set_sn_function, sent, after, set_sn_function-IsEntry}
use lbm_rtp_proxy.Rewrite.Smoothing.Stream.{sent_all, after_lem}

-- The number that follows `out`, where the source went from `prev` to `sn`: the next one if the
-- source starts over, and else as far from `out` as the source went.
abbrev pub follow : ℕ → ℕ → ℕ → ℕ
follow prev out sn =
    if ltb (prev + 1) (2 ^ 16) && leb (sn + 3) prev
    then (out + 1) % 2 ^ 16
    else (out + (sn + 2 ^ 16 - prev)) % 2 ^ 16

unfoldable pub continued : ℕ → ℕ → List ℕ → List ℕ
continued prev out [] = []
continued prev out (sn ∷ sns) = follow prev out sn ∷ continued sn (follow prev out sn) sns

sent-follow :
    (e : TableEntry) (sn : ℕ)
    → IsEntry e
    → e.entry_used ≢ 0
    → sn < 2 ^ 16
    → sent e sn ≡ follow e.last_sn ((e.last_sn + e.offset) % 2 ^ 16) sn
unfolding set_sn_function
sent-follow e sn w used lt = ground arith

-- Any stream of 16-bit numbers leaves a row in range and in use as the numbers alone say: where the
-- number falls by 3 or more below the last one, which is not 65535, the successor of the number sent
-- last is sent, and else the number as far from it as the source went, modulo 65536.
pub sent_all-continued :
    (e : TableEntry) (sns : List ℕ)
    → IsEntry e
    → e.entry_used ≢ 0
    → All (λ sn. sn < 2 ^ 16) sns
    → sent_all e sns ≡ continued e.last_sn ((e.last_sn + e.offset) % 2 ^ 16) sns
unfolding continued
sent_all-continued e [] w used lt = refl
sent_all-continued e (sn ∷ sns) w used lt =
    let next = after_lem e sn in
    let rest =
      sent_all-continued (after e sn) sns (set_sn_function-IsEntry e sn w lt.0) next.2 lt.1 in
    rw (rest, next.1, next.0, sent-follow e sn w used lt.0)

-- The numbers of a stream through a row that may be fresh: the first number gets the offset of the
-- row, and the others go on from there.
abbrev pub started : TableEntry → List ℕ → List ℕ
started e [] = []
started e (sn ∷ sns) =
    if is_set e.entry_used
    then continued e.last_sn ((e.last_sn + e.offset) % 2 ^ 16) (sn ∷ sns)
    else (sn + e.offset) % 2 ^ 16 ∷ continued sn ((sn + e.offset) % 2 ^ 16) sns

fresh-sent :
    (e : TableEntry) (sn : ℕ)
    → e.entry_used ≡ 0
    → (sent e sn ≡ (sn + e.offset) % 2 ^ 16)
      × ((after e sn).last_sn ≡ sn)
      × ((after e sn).offset ≡ e.offset)
unfolding set_sn_function
fresh-sent e sn fresh = ground arith

-- Any stream of 16-bit numbers leaves a row in range as the numbers alone say. The first number of a
-- row that is not in use is sent with the offset of the row added. From then on, where the number
-- falls by 3 or more below the last one, which is not 65535, the successor of the number sent last is
-- sent, and else the number as far from it as the source went; all modulo 65536.
pub sent_all-started :
    (e : TableEntry) (sns : List ℕ)
    → IsEntry e
    → All (λ sn. sn < 2 ^ 16) sns
    → sent_all e sns ≡ started e sns
sent_all-started e [] w lt = refl
sent_all-started e (sn ∷ sns) w lt = elim (Bool-cases (is_set e.entry_used)) [
  | inl used ↦ rw used (sent_all-continued e (sn ∷ sns) w (ground arith) lt)
  | inr unused ↦
      let first = fresh-sent e sn (ground arith) in
      let rest =
        sent_all-continued (after e sn) sns (set_sn_function-IsEntry e sn w lt.0) (after_lem e sn).2
          lt.1 in
      rw (unused, rest, first.0, first.1, first.2) refl
]
