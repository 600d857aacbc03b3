-- ===== src/Counter/Limited/Complete.antt =====
-- How far `RateLimitedConn.Write` comes with its bytes (counter/ratelimit.go).
use mini_sb_xboard_agent.Base.{
  ℕ, zero, suc, ◌+◌, ◌≤◌, ◌≡◌, ◌≢◌, refl, sym, ap, ◌∙◌, true, Option, none, some, List, [], ◌∷◌,
  ◌++◌, arith, nat_beq, nat_beq_iff, length, take, drop, length-take, length-drop, Bool-cases,
  Option-cases, inl, inr,
}
use mini_sb_xboard_agent.Counter.RateLimit.{max_write_chunk}
use mini_sb_xboard_agent.Counter.Limited.{
  Inside, Stop, failed, short_write, out_of_rounds, write_chunks, limited_write, stop_of,
}

append_assoc : (a b c : List ℕ) → (a ++ b) ++ c ≡ a ++ (b ++ c)
append_assoc [] b c = refl
append_assoc (x ∷ a) b c = ap (λ l. x ∷ l) (append_assoc a b c)

append-nil : (a : List ℕ) → a ++ [] ≡ a
append-nil [] = refl
append-nil (x ∷ a) = ap (λ l. x ∷ l) (append-nil a)

take_nil : (n : ℕ) → Path (List ℕ) (take n []) []
take_nil zero = refl
take_nil (suc n) = refl

take_further :
    (m k : ℕ) (b : List ℕ) → take (length (take m b) + k) b ≡ take m b ++ take k (drop m b)
take_further zero k b = ap (λ n. take n b) (omega arith)
take_further (suc m) k [] = take_nil (0 + k) ∙ sym (take_nil k)
take_further (suc m) k (c ∷ b) =
    let e : suc (length (take m b)) + k ≡ suc (length (take m b) + k) = omega arith in
    ap (λ n. take n (c ∷ b)) e ∙ ap (λ l. c ∷ l) (take_further m k b)

take-take : (n m : ℕ) (b : List ℕ) → n ≤ length (take m b) → take n (take m b) ≡ take n b
take-take zero m b h = refl
take-take (suc n) zero b h = absurd (omega (arith, h))
take-take (suc n) (suc m) [] h = refl
take-take (suc n) (suc m) (c ∷ b) h = ap (λ l. c ∷ l) (take-take n m b (omega (arith, h)))

pub take_all : (b : List ℕ) → take (length b) b ≡ b
take_all [] = refl
take_all (c ∷ b) = ap (λ l. c ∷ l) (take_all b)

stop_lem : {E : Type 0} → (o : Option E) → stop_of o ≢ some out_of_rounds
stop_lem none h = absurd (ground arith)
stop_lem (some e) h = absurd (ground arith)

module _ {W E : Type 0} (x : Inside W E) (sent : W → List ℕ) where
  -- How far a write of bytes came, from a total so far: the bytes that the connection got are the first
  -- of b, as many as the total tells, and all of them without an error.
  pub record Progress (b : List ℕ) (total : ℕ) (w : W) (r : W × (ℕ × Option (Stop E)))
      : Type 0 where
    pub count : ℕ
    pub within : count ≤ length b
    pub total_is : r.1.0 ≡ total + count
    pub sent_is : sent r.0 ≡ sent w ++ take count b
    pub complete : r.1.1 ≡ none → count ≡ length b
    pub rounds_suffice : r.1.1 ≢ some out_of_rounds

  module _ (quiet : (n : ℕ) (w : W) → sent (x.wait n w).0 ≡ sent w)
      (counted : (b : List ℕ) (w : W) → (x.write b w).1.0 ≤ length b)
      (writes : (b : List ℕ) (w : W)
        → sent (x.write b w).0 ≡ sent w ++ take (x.write b w).1.0 b) where
    module _ (size : ℕ) (positive : 1 ≤ size) where
      -- A round after which the bytes go on.
      round_lem :
          (b : List ℕ) (total n : ℕ) (w v : W) (r : W × (ℕ × Option (Stop E)))
          → n ≡ length (take size b)
          → sent v ≡ sent w ++ take n (take size b)
          → Progress (drop size b) (total + n) v r
          → Progress b total w r
      round_lem b total n w v r whole went rest = record {
        count = n + rest.count;
        within = omega (arith, whole, length-take size b, length-drop size b, rest.within);
        total_is = omega (arith, rest.total_is);
        sent_is =
            rest.sent_is
            ∙ ap (λ s. s ++ take rest.count (drop size b))
                (went
                  ∙ ap (λ k. sent w ++ take k (take size b)) whole
                  ∙ ap (λ l. sent w ++ l) (take_all (take size b)))
            ∙ append_assoc (sent w) (take size b) (take rest.count (drop size b))
            ∙ ap (λ l. sent w ++ l)
                (sym (take_further size rest.count b)
                  ∙ ap (λ k. take (k + rest.count) b) (sym whole));
        complete = λ fine.
            omega (arith, whole, length-take size b, length-drop size b, rest.complete fine);
        rounds_suffice = rest.rounds_suffice;
      }

      -- A round that ends the loop early.
      last_lem :
          (b : List ℕ) (total n : ℕ) (w v : W) (e : Stop E)
          → e ≢ out_of_rounds
          → n ≤ length (take size b)
          → sent v ≡ sent w ++ take n (take size b)
          → Progress b total w (v, (total + n, some e))
      last_lem b total n w v e other fits went = record {
        count = n;
        within = omega (arith, fits, length-take size b);
        total_is = refl;
        sent_is = went ∙ ap (λ l. sent w ++ l) (take-take n size b fits);
        complete = λ fine. absurd (ground arith);
        rounds_suffice = λ h. other (ground arith);
      }

      pub write_chunks_lem :
          (rounds : ℕ) (b : List ℕ) (total : ℕ) (w : W)
          → length b ≤ rounds
          → Progress b total w (write_chunks x size rounds b total w)
      unfolding write_chunks
      write_chunks_lem rounds [] total w h = record {
        count = 0;
        within = omega arith;
        total_is = omega arith;
        sent_is = sym (append-nil (sent w));
        complete = λ _. refl;
        rounds_suffice = λ h. absurd (ground arith);
      }
      write_chunks_lem zero (c ∷ b) total w h = absurd (omega (arith, h))
      write_chunks_lem (suc rounds) (c ∷ b) total w h =
          let chunk = take size (c ∷ b) in
          let v = (x.wait (length chunk) w).0 in
          let went =
            writes chunk v
            ∙ ap (λ l. l ++ take (x.write chunk v).1.0 chunk) (quiet (length chunk) w) in
          let fits = counted chunk v in
          elim (Option-cases (x.wait (length chunk) w).1) [
            | inr (e, refused) ↦
                rw (write_chunks, refused)
                  (record {
                    count = 0;
                    within = omega arith;
                    total_is = omega arith;
                    sent_is = quiet (length chunk) w ∙ sym (append-nil (sent w));
                    complete = λ fine. absurd (ground arith);
                    rounds_suffice = λ h. absurd (ground arith);
                  })
            | inl waited ↦ elim (Option-cases (x.write chunk v).1.1) [
              | inr (e, broken) ↦
                  rw (write_chunks, waited, broken)
                    (last_lem (c ∷ b) total (x.write chunk v).1.0 w (x.write chunk v).0 (failed e)
                      (λ h. absurd (ground arith)) fits went)
              | inl fine ↦ elim (Bool-cases (nat_beq (x.write chunk v).1.0 (length chunk))) [
                | inr short ↦
                    rw (write_chunks, waited, fine, short)
                      (last_lem (c ∷ b) total (x.write chunk v).1.0 w (x.write chunk v).0
                        short_write (λ h. absurd (ground arith)) fits went)
                | inl whole ↦
                    rw (write_chunks, waited, fine, whole)
                      (round_lem (c ∷ b) total (x.write chunk v).1.0 w (x.write chunk v).0
                        (write_chunks x size rounds (drop size (c ∷ b))
                          (total + (x.write chunk v).1.0) (x.write chunk v).0)
                        (ground (arith, nat_beq_iff (x.write chunk v).1.0 (length chunk))) went
                        (write_chunks_lem rounds (drop size (c ∷ b)) (total + (x.write chunk v).1.0)
                          (x.write chunk v).0
                          (omega (arith, h, positive, length-drop size (c ∷ b)))))
              ]
            ]
          ]

    -- Behind a limiter, `Write` hands the connection a beginning of its bytes, in order and as long as
    -- the total that it returns, all of them if it returns no error, and the rounds suffice: for a
    -- connection that reports how much of a chunk it took, whatever the limiter and the connection
    -- refuse.
    pub limited_write_lem : (b : List ℕ) (w : W) → Progress b 0 w (limited_write x true b w)
    unfolding limited_write
    limited_write_lem [] w = record {
      count = 0;
      within = omega arith;
      total_is = omega (arith, counted [] w);
      sent_is = writes [] w ∙ ap (λ l. sent w ++ l) (take_nil (x.write [] w).1.0);
      complete = λ _. refl;
      rounds_suffice = stop_lem (x.write [] w).1.1;
    }
    limited_write_lem (c ∷ b) w =
        (write_chunks_lem max_write_chunk (omega arith) (length (c ∷ b)) (c ∷ b) 0 w (omega arith))
