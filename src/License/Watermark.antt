-- ===== src/License/Watermark.antt =====
-- pkg/license/watermark.go: the latest time that was seen, kept in a file.
use omni_blob.Base.{
  ℕ, ◌≤◌, ◌≡◌, Bool, true, false, Option, none, some, List, [], ◌∷◌, arith, ltb, if◌then◌else◌,
}
use omni_blob.License.{LicenseError, clock_tampered, write_failed, read_failed}

-- What the file holds.
pub data WatermarkFile : Type 0 where
  absent : WatermarkFile
  unreadable : WatermarkFile
  corrupt : WatermarkFile
  stored : ℕ → WatermarkFile

abbrev is_rewound : WatermarkFile → ℕ → Bool
is_rewound (stored w) now = ltb now w
is_rewound _ now = false

-- `writable` says whether the file can be written.
unfoldable pub update_watermark : Bool → WatermarkFile → ℕ → WatermarkFile × Option LicenseError
update_watermark writable f now =
    if is_rewound f now
    then (f, some clock_tampered)
    else if writable
    then (stored now, none)
    else (f, some write_failed)

-- The time, and whether there was an error. The zero time stands where none is known.
unfoldable pub get_watermark : WatermarkFile → ℕ × Option LicenseError
get_watermark (stored w) = (w, none)
get_watermark absent = (0, none)
get_watermark unreadable = (0, some read_failed)
get_watermark corrupt = (0, some read_failed)

unfoldable pub get_monotonic_time : Bool → WatermarkFile → ℕ → WatermarkFile × ℕ
get_monotonic_time writable f now =
    let f' = (update_watermark writable f now).0 in
    let last = (get_watermark f').0 in (f', if ltb now last then last else now)

-- The times that a run of calls returns, for the readings of the clock.
unfoldable pub monotonic_run : WatermarkFile → List ℕ → List ℕ
monotonic_run f [] = []
monotonic_run f (now ∷ rest) =
    (get_monotonic_time true f now).1 ∷ monotonic_run (get_monotonic_time true f now).0 rest

abbrev pub Ascends : ℕ → List ℕ → Type 0
Ascends t [] = Unit
Ascends t (x ∷ xs) = (t ≤ x) × Ascends x xs

monotonic_step :
    (f : WatermarkFile) (now : ℕ)
    → (get_monotonic_time true f now).0 ≡ stored (get_monotonic_time true f now).1
unfolding get_monotonic_time update_watermark get_watermark
monotonic_step (stored w) now = ground arith
monotonic_step _ now = ground arith

stored_below : (w now : ℕ) → w ≤ (get_monotonic_time true (stored w) now).1
unfolding get_monotonic_time update_watermark get_watermark
stored_below w now = ground arith

run-Ascends : (w : ℕ) (clock : List ℕ) → Ascends w (monotonic_run (stored w) clock)
unfolding monotonic_run
run-Ascends w [] = tt
run-Ascends w (now ∷ rest) = (
  stored_below w now,
  rw (monotonic_step (stored w) now) (run-Ascends (get_monotonic_time true (stored w) now).1 rest),
)

-- Whatever the clock reads, also when it is set back, and whatever the file held at first, the times
-- that GetMonotonicTime returns never decrease, as long as the file can be written.
pub monotonic_run-Ascends : (f : WatermarkFile) (clock : List ℕ) → Ascends 0 (monotonic_run f clock)
unfolding monotonic_run
monotonic_run-Ascends f [] = tt
monotonic_run-Ascends f (now ∷ rest) =
    (omega arith, rw (monotonic_step f now) (run-Ascends (get_monotonic_time true f now).1 rest))
