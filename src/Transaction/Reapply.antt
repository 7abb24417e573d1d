-- ===== src/Transaction/Reapply.antt =====
-- The generation that `prepare_startup_reapply` of src/transaction.rs hands out.
use ratash.Common.{ℕ, ◌≡◌, refl, Option, none, some, arith, ◌<◌, ◌^◌, same_option, same_option-eq}
use ratash.Common.Result.{ok}
use ratash.Common.Attempt.{
  Triple, Triple-succeed, Triple-fail, Triple-if, Triple-bind, Triple-given, Outcome-ok,
  Keeps-trivial,
}
use ratash.Transaction.Types.{RecoveryState, StartupReapply, ConfigTransactionCoordinator}
use ratash.Transaction.Startup.{
  checked_next, generation_or_zero, highest_generation, take_generation, reapply_next,
  prepare_startup_reapply,
}

-- Above the committed generation and no larger than a u64.
abbrev pub IsNext : Option ℕ → ℕ → Type 0
IsNext o g = (generation_or_zero o < g) × (g < 2 ^ 64)

checked_next-IsNext :
    (o p : Option ℕ) (g : ℕ) → checked_next (highest_generation o p) ≡ some g → IsNext o g
unfolding checked_next highest_generation
checked_next-IsNext o p g h = (ground (arith, h), ground (arith, h))

module _ {W : Type 0} (c : ConfigTransactionCoordinator W) where
  take_generation-IsNext :
      (o : Option ℕ) (n : Option ℕ)
      → ((g : ℕ) → n ≡ some g → IsNext o g)
      → Triple (λ _. Unit {0}) (take_generation c o n) (λ g _. IsNext o g) (λ _ _. Unit {0})
  unfolding take_generation
  take_generation-IsNext o none h = Triple-fail _ (λ w r. tt)
  take_generation-IsNext o (some g) h = Triple-succeed g (λ w r. h g refl)

  reapply_next-IsNext :
      (o : Option ℕ) (s : RecoveryState)
      → Triple
          (λ _. Unit {0})
          (reapply_next c o s)
          (λ r _. (r.committed_generation ≡ o) × IsNext o r.candidate_generation)
          (λ _ _. Unit {0})
  unfolding reapply_next
  reapply_next-IsNext o s = Triple-bind (Keeps-trivial _) (λ p.
      Triple-bind (take_generation-IsNext o _ (checked_next-IsNext o p)) (λ g.
        Triple-given
          (λ next. Triple-bind (Keeps-trivial _) (λ _. Triple-succeed _ (λ w r. (refl, next))))))

  all_steps :
      (expected : Option ℕ)
      → Triple
          (λ _. Unit {0})
          (prepare_startup_reapply c expected)
          (λ r _. (r.committed_generation ≡ expected) × IsNext expected r.candidate_generation)
          (λ _ _. Unit {0})
  unfolding prepare_startup_reapply
  all_steps expected = Triple-bind (Keeps-trivial _) (λ _. Triple-bind (Keeps-trivial _) (λ s.
      Triple-bind (Keeps-trivial _) (λ o. Triple-bind (Keeps-trivial _) (λ _.
        Triple-if (same_option o expected)
          (λ same. rw (← same_option-eq o expected same) (reapply_next-IsNext o s))
          (λ _. Triple-fail _ (λ w r. tt))))))

  -- A success of `prepare_startup_reapply` has found the expected committed generation, and hands
  -- out a candidate generation that is greater and fits a u64.
  pub prepare_startup_reapply-IsNext :
      (expected : Option ℕ) (w : W) (s : StartupReapply)
      → (prepare_startup_reapply c expected w).0 ≡ ok s
      → (s.committed_generation ≡ expected) × IsNext expected s.candidate_generation
  prepare_startup_reapply-IsNext expected w s same =
      Outcome-ok
        {Q = λ r _. (r.committed_generation ≡ expected) × IsNext expected r.candidate_generation}
        (all_steps expected) tt same
