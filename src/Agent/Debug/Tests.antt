-- ===== src/Agent/Debug/Tests.antt =====
-- The theorems on the samples at concrete inputs.
use mini_sb_xboard_agent.Base.{◌≡◌, refl, List, [], ◌∷◌, ◌++◌, arith}
use mini_sb_xboard_agent.Base.Text.{Text, lit, is_space, digits, digits_onto}
use mini_sb_xboard_agent.Base.Words.{join}
use mini_sb_xboard_agent.Agent.Debug.{zero_sample, field_at, proc_stat}
use mini_sb_xboard_agent.Agent.Debug.Laws.{proc_stat_lem}

-- What follows the name of the process, less the state.
abbrev words : List Text
words =
    lit "0"
    ∷ lit "0"
    ∷ lit "0"
    ∷ lit "0"
    ∷ lit "0"
    ∷ lit "0"
    ∷ lit "0"
    ∷ lit "0"
    ∷ lit "0"
    ∷ lit "0"
    ∷ lit "12"
    ∷ lit "34"
    ∷ lit "0"
    ∷ lit "0"
    ∷ lit "0"
    ∷ lit "0"
    ∷ lit "0"
    ∷ lit "0"
    ∷ lit "567"
    ∷ []

-- A process whose name has a parenthesis and blanks.
proc_stat_lem_example :
    proc_stat
      (lit "42 (a) b" ++ (b')' ∷ b' ' ∷ (join b' ' (lit "S" ∷ words) ++ lit "\n")))
      zero_sample
    ≡ record zero_sample { utime_ticks = 12; stime_ticks = 34; start_time_ticks = 567 }
unfolding is_space field_at digits digits_onto
proc_stat_lem_example =
    proc_stat_lem (lit "42 (a) b") (lit "S") words zero_sample 12 34 567
      (
        (refl, (tt)),
        (
          (refl, (tt)),
          (
            (refl, (tt)),
            (
              (refl, (tt)),
              (
                (refl, (tt)),
                (
                  (refl, (tt)),
                  (
                    (refl, (tt)),
                    (
                      (refl, (tt)),
                      (
                        (refl, (tt)),
                        (
                          (refl, (tt)),
                          (
                            (refl, (tt)),
                            (
                              (refl, (refl, (tt))),
                              (
                                (refl, (refl, (tt))),
                                (
                                  (refl, (tt)),
                                  (
                                    (refl, (tt)),
                                    (
                                      (refl, (tt)),
                                      (
                                        (refl, (tt)),
                                        (
                                          (refl, (tt)),
                                          ((refl, (tt)), ((refl, (refl, (refl, (tt)))), (tt))),
                                        ),
                                      ),
                                    ),
                                  ),
                                ),
                              ),
                            ),
                          ),
                        ),
                      ),
                    ),
                  ),
                ),
              ),
            ),
          ),
        ),
      )
      (
        (refl, (tt)),
        (
          (refl, (tt)),
          (
            (refl, (tt)),
            (
              (refl, (tt)),
              (
                (refl, (tt)),
                (
                  (refl, (tt)),
                  (
                    (refl, (tt)),
                    (
                      (refl, (tt)),
                      (
                        (refl, (tt)),
                        (
                          (refl, (tt)),
                          (
                            (refl, (tt)),
                            (
                              (refl, (refl, (tt))),
                              (
                                (refl, (refl, (tt))),
                                (
                                  (refl, (tt)),
                                  (
                                    (refl, (tt)),
                                    (
                                      (refl, (tt)),
                                      (
                                        (refl, (tt)),
                                        (
                                          (refl, (tt)),
                                          ((refl, (tt)), ((refl, (refl, (refl, (tt)))), (tt))),
                                        ),
                                      ),
                                    ),
                                  ),
                                ),
                              ),
                            ),
                          ),
                        ),
                      ),
                    ),
                  ),
                ),
              ),
            ),
          ),
        ),
      )
      (
        refl,
        (
          refl,
          (
            refl,
            (
              refl,
              (
                refl,
                (
                  refl,
                  (
                    refl,
                    (
                      refl,
                      (
                        refl,
                        (
                          refl,
                          (
                            refl,
                            (
                              refl,
                              (refl, (refl, (refl, (refl, (refl, (refl, (refl, (refl, (tt))))))))),
                            ),
                          ),
                        ),
                      ),
                    ),
                  ),
                ),
              ),
            ),
          ),
        ),
      )
      (omega arith) refl refl refl (omega arith) (omega arith) (omega arith)
