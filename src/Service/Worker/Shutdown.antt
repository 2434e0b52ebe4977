-- ===== src/Service/Worker/Shutdown.antt =====
-- internal/service/sync_service.go and internal/service/reconciliation_service.go: the end of the
-- loops, and what the reconciliation does.
use omni_blob.Base.{ℕ, ◌≡◌, refl, inl, inr, List, [], ◌∷◌, ◌++◌, Bool-cases}
use omni_blob.Config.{ReconciliationConfig}
use omni_blob.Service.Worker.{
  Event, cancelled, stopped, ticked, work, start_background, start_background_reconciliation,
}

-- Once the context is cancelled or Stop is called, later ticks start no batch.
work_ends {ℓ κ} :
    {A : Type ℓ} {S : Type κ} (batch : A → S → S) (es later : List (Event A)) (s : S)
    → (work batch (es ++ (cancelled ∷ later)) s ≡ work batch es s)
      × (work batch (es ++ (stopped ∷ later)) s ≡ work batch es s)
unfolding work
work_ends batch [] later s = (refl, refl)
work_ends batch (cancelled ∷ es) later s = (refl, refl)
work_ends batch (stopped ∷ es) later s = (refl, refl)
work_ends batch (ticked a ∷ es) later s = work_ends batch es later (batch a s)

work_idle {ℓ κ} : {A : Type ℓ} {S : Type κ} (es : List (Event A)) (s : S) → work (λ a u. u) es s ≡ s
unfolding work
work_idle [] s = refl
work_idle (cancelled ∷ es) s = refl
work_idle (stopped ∷ es) s = refl
work_idle (ticked a ∷ es) s = work_idle es s

-- The reconciliation changes nothing, however long it runs.
start_background_reconciliation-idle {ℓ} :
    {S : Type ℓ} (cfg : ReconciliationConfig) (now : ℕ) (es : List (Event ℕ)) (s : S)
    → start_background_reconciliation cfg now es s ≡ s
unfolding start_background_reconciliation start_background
start_background_reconciliation-idle cfg now es s = elim (Bool-cases cfg.enabled) [
  | inl on ↦ rw on (work_idle es s)
  | inr off ↦ rw off refl
]
