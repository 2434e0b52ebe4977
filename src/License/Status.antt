-- ===== src/License/Status.antt =====
-- pkg/license/license.go: the status of a licence as time goes on.
use omni_blob.Base.{ℕ, ◌≤◌, ◌<◌, ◌≡◌, ◌↔◌, arith}
use omni_blob.License.{
  Payload, LicenseStatus, valid, grace_period, expired, clock_tampered_status, check_status,
  grace_end,
}

-- A rewound clock is reported exactly when the watermark is later than the clock; without that the
-- licence is valid exactly from its start to its expiry, and in grace exactly from there to the
-- end of the grace period.
pub check_status-table :
    (p : Payload) (current last_seen : ℕ)
    → ((check_status p current last_seen ≡ clock_tampered_status) ↔ (current < last_seen))
      × (last_seen ≤ current
          → ((check_status p current last_seen ≡ valid)
              ↔ ((p.not_before ≤ current) × (current ≤ p.expires_at)))
            × ((check_status p current last_seen ≡ grace_period)
                ↔ ((p.not_before ≤ current) × (p.expires_at < current) × (current ≤ grace_end p))))
unfolding check_status
check_status-table p current last_seen = (
  (λ h. ground arith, λ h. ground arith),
  λ k. ((λ h. ground arith, λ h. ground arith), (λ h. ground arith, λ h. ground arith)),
)

abbrev pub rank : LicenseStatus → ℕ
rank valid = 0
rank grace_period = 1
rank expired = 2
rank clock_tampered_status = 3

-- From its start on, and with clocks that are not behind the watermark, a licence only moves from
-- valid to grace to expired, never back.
pub check_status-ages :
    (p : Payload) (t t' seen seen' : ℕ)
    → p.not_before ≤ t
    → t ≤ t'
    → seen ≤ t
    → seen' ≤ t'
    → rank (check_status p t seen) ≤ rank (check_status p t' seen')
unfolding check_status
check_status-ages p t t' seen seen' a b c d = ground arith
