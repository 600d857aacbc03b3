-- ===== src/Counter/Limited.antt =====
-- The rate-limited connections (the wrappers in counter/ratelimit.go). The connection inside and the
-- limiters are parameters on a state W: what `Wait` and `Allow` do is in RateLimit.
pub mod Complete
pub mod Buffer
use mini_sb_xboard_agent.Base.{
  ℕ, zero, suc, ◌+◌, Bool, true, false, not, ◌&&◌, ◌||◌, Option, none, some, List, [], ◌∷◌, ltb,
  nat_beq, length, take, drop, if◌then◌else◌, Result, ok, err,
}
use mini_sb_xboard_agent.Counter.RateLimit.{max_write_chunk}

-- Why a method of a limited connection ends early; `out_of_rounds` is no error of the source, but the
-- end of the rounds that the loop of `Write` is given here.
pub data Stop (E : Type 0) : Type 0 where
  failed : E → Stop E
  short_write : Stop E
  out_of_rounds : Stop E

-- A limiter's `Wait` and `Allow`, and the methods of the connection inside: how many bytes a call moved,
-- also where it failed. `none` is no error.
pub record Inside (W E : Type 0) : Type 0 where
  pub wait : ℕ → W → W × Option E
  pub allow : ℕ → W → W × Result E Bool
  pub read : ℕ → W → W × (ℕ × Option E)
  pub write : List ℕ → W → W × (ℕ × Option E)

abbrev pub max_read_chunk : ℕ
max_read_chunk = 65536

abbrev pub stop_of : {E : Type 0} → Option E → Option (Stop E)
stop_of none = none
stop_of (some e) = some (failed e)

module _ {W E : Type 0} (x : Inside W E) where
  -- `RateLimitedConn.Read` for a buffer of a size: the bytes are read before they are waited for.
  unfoldable pub limited_read : Bool → ℕ → W → W × (ℕ × Option E)
  limited_read limited size w =
      let got = x.read (if limited && ltb max_read_chunk size then max_read_chunk else size) w in
      let waited = x.wait got.1.0 got.0 in
      if limited && ltb 0 got.1.0
      then (waited.0, (got.1.0, elim got.1.1 [ some e ↦ some e | none ↦ waited.1 ]))
      else got

  -- The loop of `RateLimitedConn.Write`, for the size of a chunk, what is left of the bytes and the total
  -- so far.
  unfoldable pub write_chunks : ℕ → ℕ → List ℕ → ℕ → W → W × (ℕ × Option (Stop E))
  write_chunks size rounds [] total w = (w, (total, none))
  write_chunks size zero (c ∷ b) total w = (w, (total, some out_of_rounds))
  write_chunks size (suc rounds) (c ∷ b) total w =
      let chunk = take size (c ∷ b) in
      let waited = x.wait (length chunk) w in
      let sent = x.write chunk waited.0 in
      elim waited.1 [
        | some e ↦ (waited.0, (total, some (failed e)))
        | none ↦ elim sent.1.1 [
          | some e ↦ (sent.0, (total + sent.1.0, some (failed e)))
          | none ↦ elim (nat_beq sent.1.0 (length chunk)) [
            | false ↦ (sent.0, (total + sent.1.0, some short_write))
            | true ↦ write_chunks size rounds (drop size (c ∷ b)) (total + sent.1.0) sent.0
          ]
        ]
      ]

  -- The call of the connection inside, where there is nothing to limit.
  abbrev pub write_inside : List ℕ → W → W × (ℕ × Option (Stop E))
  write_inside b w = let sent = x.write b w in (sent.0, (sent.1.0, stop_of sent.1.1))

  -- `RateLimitedConn.Write`, with a round for each byte, which is more than enough.
  unfoldable pub limited_write : Bool → List ℕ → W → W × (ℕ × Option (Stop E))
  limited_write limited [] w = write_inside [] w
  limited_write false (c ∷ b) w = write_inside (c ∷ b) w
  limited_write true (c ∷ b) w = write_chunks max_write_chunk (length (c ∷ b)) (c ∷ b) 0 w

  -- `RateLimitedConn.ReadBuffer`, where the read leaves a number of bytes in the buffer.
  unfoldable pub limited_read_buffer : Bool → ℕ → W → W × (ℕ × Option E)
  limited_read_buffer limited size w =
      let got = x.read size w in
      let waited = x.wait got.1.0 got.0 in
      elim got.1.1 [
        | some e ↦ got
        | none ↦ if limited && ltb 0 got.1.0 then (waited.0, (got.1.0, waited.1)) else got
      ]

  -- `RateLimitedPacketConn.ReadPacket`: a packet that the limiter does not allow is emptied.
  unfoldable pub limited_read_packet : Bool → ℕ → W → W × (ℕ × Option E)
  limited_read_packet limited size w =
      let got = x.read size w in
      let asked = x.allow got.1.0 got.0 in
      elim got.1.1 [
        | some e ↦ got
        | none ↦
            if limited && ltb 0 got.1.0
            then elim asked.1 [
              | err e ↦ (asked.0, (got.1.0, some e))
              | ok allowed ↦ (asked.0, (if allowed then got.1.0 else 0, none))
            ]
            else got
      ]

  -- `RateLimitedPacketConn.WritePacket`: a packet that the limiter does not allow is dropped.
  unfoldable pub limited_write_packet : Bool → List ℕ → W → W × Option E
  limited_write_packet limited b w =
      let asked = x.allow (length b) w in
      let sent = x.write b w in
      let sent' = x.write b asked.0 in
      if limited && ltb 0 (length b)
      then elim asked.1 [
        | err e ↦ (asked.0, some e)
        | ok allowed ↦ if allowed then (sent'.0, sent'.1.1) else (asked.0, none)
      ]
      else (sent.0, sent.1.1)

  -- The end of `RateLimitedConn.WriteBuffer`: `rest` is the `WriteBuffer` of the connection inside.
  module _ (rest : List ℕ → W → W × Option E) where
    unfoldable pub write_rest : List ℕ → W → W × Option (Stop E)
    write_rest [] w = (w, none)
    write_rest (c ∷ b) w =
        let waited = x.wait (length (c ∷ b)) w in
        let sent = rest (c ∷ b) waited.0 in
        elim waited.1 [ some e ↦ (waited.0, some (failed e)) | none ↦ (sent.0, stop_of sent.1) ]

    -- Its loop: chunks of a size while there is more than one, and then the rest.
    unfoldable pub write_buffer_chunks : ℕ → ℕ → List ℕ → W → W × Option (Stop E)
    unfolding write_rest
    write_buffer_chunks size zero b w =
        if ltb size (length b) then (w, some out_of_rounds) else write_rest b w
    write_buffer_chunks size (suc rounds) b w =
        let waited = x.wait size w in
        let sent = x.write (take size b) waited.0 in
        let more = write_buffer_chunks size rounds (drop size b) sent.0 in
        if ltb size (length b)
        then elim waited.1 [
          | some e ↦ (waited.0, some (failed e))
          | none ↦ elim sent.1.1 [ some e ↦ (sent.0, some (failed e)) | none ↦ more ]
        ]
        else write_rest b w

    -- `RateLimitedConn.WriteBuffer`
    unfoldable pub limited_write_buffer : Bool → List ℕ → W → W × Option (Stop E)
    unfolding write_buffer_chunks
    limited_write_buffer limited b w =
        let sent = rest b w in
        if nat_beq (length b) 0 || not limited
        then (sent.0, stop_of sent.1)
        else write_buffer_chunks max_write_chunk (length b) b w
