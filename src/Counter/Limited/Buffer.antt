-- ===== src/Counter/Limited/Buffer.antt =====
-- How far `RateLimitedConn.WriteBuffer` comes with its bytes (counter/ratelimit.go).
use mathlib.Core.List.{append_assoc, append-nil}
use mini_sb_xboard_agent.Base.{
  ℕ, zero, suc, ◌≤◌, ◌≡◌, ◌≢◌, refl, sym, ap, ◌∙◌, Bool, false, not, ◌||◌, Option, none, some, List,
  [], ◌∷◌, ◌++◌, arith, ltb, nat_beq, length, take, drop, length-drop, Bool-cases, Option-cases,
  inl, inr,
}
use mini_sb_xboard_agent.Counter.RateLimit.{max_write_chunk}
use mini_sb_xboard_agent.Counter.Limited.{
  Inside, Stop, failed, out_of_rounds, stop_of, write_rest, write_buffer_chunks,
  limited_write_buffer,
}

take-drop : (n : ℕ) (b : List ℕ) → take n b ++ drop n b ≡ b
take-drop zero b = refl
take-drop (suc n) [] = refl
take-drop (suc n) (c ∷ b) = ap (λ l. c ∷ l) (take-drop n b)

module _ {W E : Type 0} (x : Inside W E) (sent : W → List ℕ)
    (rest : List ℕ → W → W × Option E) where
  -- The rounds were enough, and without an error the connection got all of b.
  abbrev pub WroteAll : List ℕ → W → W × Option (Stop E) → Type 0
  WroteAll b w r = (r.1 ≢ some out_of_rounds) × (r.1 ≡ none → sent r.0 ≡ sent w ++ b)

  failed_early : (b : List ℕ) (w v : W) (e : E) → WroteAll b w (v, some (failed e))
  failed_early b w v e = (λ h. absurd (ground (arith, h)), λ h. absurd (ground (arith, h)))

  module _ (quiet : (n : ℕ) (w : W) → sent (x.wait n w).0 ≡ sent w)
      (writes : (b : List ℕ) (w : W)
        → (x.write b w).1.1 ≡ none
        → sent (x.write b w).0 ≡ sent w ++ b)
      (ends : (b : List ℕ) (w : W) → (rest b w).1 ≡ none → sent (rest b w).0 ≡ sent w ++ b) where
    rest_lem :
        (b : List ℕ) (w v : W) → sent v ≡ sent w → WroteAll b w ((rest b v).0, stop_of (rest b v).1)
    rest_lem b w v same = elim (Option-cases (rest b v).1) [
      | inl fine ↦
          rw fine (λ h. absurd (ground (arith, h)), λ h. ends b v fine ∙ ap (λ s. s ++ b) same)
      | inr (e, bad) ↦ rw bad (failed_early b w (rest b v).0 e)
    ]

    write_rest_lem : (b : List ℕ) (w : W) → WroteAll b w (write_rest x rest b w)
    unfolding write_rest
    write_rest_lem [] w = (λ h. absurd (ground (arith, h)), λ h. sym (append-nil (sent w)))
    write_rest_lem (c ∷ b) w =
        let waited = x.wait (length (c ∷ b)) w in
        elim (Option-cases waited.1) [
          | inr (e, bad) ↦ rw (write_rest, bad) (failed_early (c ∷ b) w waited.0 e)
          | inl fine ↦
              rw (write_rest, fine) (rest_lem (c ∷ b) w waited.0 (quiet (length (c ∷ b)) w))
        ]

    chunks_lem :
        (size rounds : ℕ) (b : List ℕ) (w : W)
        → 1 ≤ size
        → length b ≤ rounds
        → WroteAll b w (write_buffer_chunks x rest size rounds b w)
    unfolding write_buffer_chunks
    chunks_lem size zero b w positive h =
        let small : ltb size (length b) ≡ false = ground arith in rw small (write_rest_lem b w)
    chunks_lem size (suc rounds) b w positive h = elim (Bool-cases (ltb size (length b))) [
      | inr last ↦ rw last (write_rest_lem b w)
      | inl more ↦
          let waited = x.wait size w in
          let done = x.write (take size b) waited.0 in
          elim (Option-cases waited.1) [
            | inr (e, bad) ↦ rw (more, bad) (failed_early b w waited.0 e)
            | inl fine ↦ elim (Option-cases done.1.1) [
              | inr (e, bad) ↦ rw (more, fine, bad) (failed_early b w done.0 e)
              | inl good ↦
                  let (enough, all) =
                    chunks_lem size rounds (drop size b) done.0 positive
                      (omega (arith, length-drop size b)) in
                  rw (more, fine, good)
                    (
                      enough,
                      λ h.
                          all h
                          ∙ ap (λ s. s ++ drop size b)
                              (writes (take size b) waited.0 good
                                ∙ ap (λ s. s ++ take size b) (quiet size w))
                          ∙ append_assoc (sent w) (take size b) (drop size b)
                          ∙ ap (λ l. sent w ++ l) (take-drop size b),
                    )
            ]
          ]
    ]

    -- If the waits send nothing, a `Write` of the connection inside that reports no error has sent all its
    -- bytes, and so has its `WriteBuffer`: `WriteBuffer` of the limited connection ends after at most a
    -- round for each byte, and if it reports no error, the connection inside got all bytes of the buffer,
    -- in order and each once, whether there is a limiter or not.
    pub limited_write_buffer_lem :
        (limited : Bool) (b : List ℕ) (w : W)
        → WroteAll b w (limited_write_buffer x rest limited b w)
    unfolding limited_write_buffer
    limited_write_buffer_lem limited b w = elim (Bool-cases (nat_beq (length b) 0 || not limited)) [
      | inl direct ↦ rw direct (rest_lem b w w refl)
      | inr chunks ↦
          rw chunks (chunks_lem max_write_chunk (length b) b w (omega arith) (omega arith))
    ]
