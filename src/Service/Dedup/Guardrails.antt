-- ===== src/Service/Dedup/Guardrails.antt =====
-- internal/service/dedup_service.go: what the scan takes for an orphan, and what is moved.
use omni_blob.Base.{
  ℕ, ◌≤◌, ◌≡◌, refl, ap, ◌∙◌, ◌⊎◌, inl, inr, Bool, true, false, ◌&&◌, not, Option, none, some, List,
  [], ◌∷◌, ◌++◌, arith, ltb, if◌then◌else◌, Bool-cases, Option-cases, length, All, Any, Text, codes,
  text_eq,
}
use omni_blob.FilePath.{slash, clean}
use omni_blob.FileSystem.{FileSystem, Node, rename, ensure_parents, is_some}
use omni_blob.Repository.BinaryFiles.{Files, exists_by_path}
use omni_blob.Repository.Tables.{insert_orphan}
use omni_blob.Service.Dedup.{
  DedupConfig, cutoff_of, make_root, Visit, unreadable, directory, regular, rel_below, unknown,
  is_orphan, path_of, below_skipped, skip_after, collect, scan, Job, target_path, log_entry,
  MoveLuck, quarantine_one, quarantine_all, find_and_quarantine_orphans,
}

-- The visited file is old enough, and the database says that no record has its path.
abbrev pub IsOrphan : DedupConfig → ℕ → (Text → Option Bool) → List Visit → Text → Type 0
IsOrphan cfg cutoff exists_path visits p =
    Any
      (λ v.
        (t : ℕ) × (v ≡ regular p t) × (t ≤ cutoff) × (exists_path (rel_below cfg p) ≡ some false))
      visits

All-if :
    {A : Type 0}
    → (P : A → Type 0) (b : Bool) (xs ys : List A) → All P xs
    → All P ys
    → All P (if b then xs else ys)
All-if P true xs ys hx hy = hx
All-if P false xs ys hx hy = hy

All-later :
    (cfg : DedupConfig) (cutoff : ℕ) (exists_path : Text → Option Bool) (v : Visit)
    (vs : List Visit) (ps : List Text)
    → All (IsOrphan cfg cutoff exists_path vs) ps
    → All (IsOrphan cfg cutoff exists_path (v ∷ vs)) ps
All-later cfg cutoff exists_path v vs [] h = tt
All-later cfg cutoff exists_path v vs (p ∷ ps) (h, hs) =
    (inr h, All-later cfg cutoff exists_path v vs ps hs)

unknown-false : (o : Option Bool) → unknown o ≡ true → o ≡ some false
unknown-false none e = absurd (ground arith)
unknown-false (some true) e = absurd (ground arith)
unknown-false (some false) e = refl

collect-IsOrphan :
    (cfg : DedupConfig) (cutoff : ℕ) (exists_path : Text → Option Bool) (v : Visit)
    (vs : List Visit) (rest : List Text)
    → All (IsOrphan cfg cutoff exists_path vs) rest
    → All (IsOrphan cfg cutoff exists_path (v ∷ vs)) (collect cfg cutoff exists_path v rest)
unfolding is_orphan
collect-IsOrphan cfg cutoff exists_path (unreadable p) vs rest h =
    All-later cfg cutoff exists_path (unreadable p) vs rest h
collect-IsOrphan cfg cutoff exists_path (directory p) vs rest h =
    All-later cfg cutoff exists_path (directory p) vs rest h
collect-IsOrphan cfg cutoff exists_path (regular p t) vs rest h =
    let later = All-later cfg cutoff exists_path (regular p t) vs rest h in
    elim (Bool-cases (is_orphan cfg cutoff exists_path p t)) [
      | inr other ↦ rw other later
      | inl found ↦ rw found (
        inl (t, refl, ground arith, unknown-false (exists_path (rel_below cfg p)) (ground arith)),
        later,
      )
    ]

-- The scan reports only files that it visited, that were last changed at the cutoff or before, and
-- whose path no record has.
pub scan-IsOrphan :
    (cfg : DedupConfig) (cutoff : ℕ) (exists_path : Text → Option Bool) (skip : Option Text)
    (visits : List Visit)
    → All (IsOrphan cfg cutoff exists_path visits) (scan cfg cutoff exists_path skip visits)
unfolding scan
scan-IsOrphan cfg cutoff exists_path skip [] = tt
scan-IsOrphan cfg cutoff exists_path skip (v ∷ vs) =
    let rest = scan cfg cutoff exists_path (skip_after cfg skip v) vs in
    All-if (IsOrphan cfg cutoff exists_path (v ∷ vs)) (below_skipped skip (path_of v))
      (scan cfg cutoff exists_path skip vs) (collect cfg cutoff exists_path v rest)
      (All-later cfg cutoff exists_path v vs (scan cfg cutoff exists_path skip vs)
        (scan-IsOrphan cfg cutoff exists_path skip vs))
      (collect-IsOrphan cfg cutoff exists_path v vs rest
        (scan-IsOrphan cfg cutoff exists_path (skip_after cfg skip v) vs))

rename-keeps :
    (src dst q : Text) (fs : FileSystem)
    → text_eq src q ≡ false
    → text_eq dst q ≡ false
    → rename src dst fs q ≡ fs q
rename-keeps src dst q fs a b = elim (Option-cases (fs src)) [
  | inl e ↦ rw (e, rename) refl
  | inr (n, e) ↦ rw (e, rename, b, a) refl
]

parents-keep :
    (t q : Text) (n : Node) (fs : FileSystem) → fs q ≡ some n → ensure_parents t fs q ≡ some n
parents-keep t q n fs e = ground (arith, e)

-- Both outcomes of a test leave what stands at `q`.
if-keeps :
    (b : Bool) (x y : Job) (q : Text) (o : Option Node)
    → x.disk q ≡ o
    → y.disk q ≡ o
    → (if b then x else y).disk q ≡ o
if-keeps true x y q o hx hy = hx
if-keeps false x y q o hx hy = hy

quarantine_one-keeps :
    (cfg : DedupConfig) (luck : MoveLuck) (p q : Text) (n : Node) (job : Job)
    → text_eq p q ≡ false
    → text_eq (target_path cfg p) q ≡ false
    → job.disk q ≡ some n
    → (quarantine_one cfg luck p job).disk q ≡ some n
unfolding quarantine_one
quarantine_one-keeps cfg luck p q n job a b e =
    let ready : FileSystem = ensure_parents (target_path cfg p) job.disk in
    let k : ready q ≡ some n = parents-keep (target_path cfg p) q n job.disk e in
    let logged : Text → Job = λ action. record job {
      logs = insert_orphan luck.log_up (log_entry cfg luck job.disk action p) job.logs;
    } in
    let moved : Job = record (logged (codes "QUARANTINED")) {
      disk = rename p (target_path cfg p) ready;
    } in
    let tried : Job =
      if not (luck.moves p && is_some (ready p)) then record job { disk = ready } else moved in
    if-keeps cfg.dry_run (logged (codes "DRY_RUN")) (if not (luck.makes p) then job else tried) q
      (some n) e
      (if-keeps (not (luck.makes p)) job tried q (some n) e (
        if-keeps (not (luck.moves p && is_some (ready p))) (record job { disk = ready }) moved q
          (some n) k (rename-keeps p (target_path cfg p) q ready a b ∙ k)))

-- `q` is none of the paths, and nothing is moved to it.
abbrev pub IsApart : DedupConfig → Text → Text → Type 0
IsApart cfg q p = (text_eq p q ≡ false) × (text_eq (target_path cfg p) q ≡ false)

quarantine_all-keeps :
    (cfg : DedupConfig) (luck : MoveLuck) (ps : List Text) (q : Text) (n : Node) (job : Job)
    → All (IsApart cfg q) ps
    → job.disk q ≡ some n
    → (quarantine_all cfg luck ps job).disk q ≡ some n
unfolding quarantine_all
quarantine_all-keeps cfg luck [] q n job h e = e
quarantine_all-keeps cfg luck (p ∷ ps) q n job ((a, b), hs) e =
    quarantine_all-keeps cfg luck ps q n (quarantine_one cfg luck p job) hs
      (quarantine_one-keeps cfg luck p q n job a b e)

quarantine_one-dry :
    (cfg : DedupConfig) (luck : MoveLuck) (p : Text) (job : Job)
    → cfg.dry_run ≡ true
    → (quarantine_one cfg luck p job).disk ≡ job.disk
unfolding quarantine_one
quarantine_one-dry cfg luck p job d = rw (d, quarantine_one) refl

quarantine_all-dry :
    (cfg : DedupConfig) (luck : MoveLuck) (ps : List Text) (job : Job)
    → cfg.dry_run ≡ true
    → (quarantine_all cfg luck ps job).disk ≡ job.disk
unfolding quarantine_all
quarantine_all-dry cfg luck [] job d = refl
quarantine_all-dry cfg luck (p ∷ ps) job d =
    quarantine_all-dry cfg luck ps (quarantine_one cfg luck p job) d
    ∙ quarantine_one-dry cfg luck p job d

if-job : (P : Job → Type 0) (b : Bool) (x y : Job × Bool) → P x.0 → P y.0 → P (if b then x else y).0
if-job P true x y hx hy = hx
if-job P false x y hx hy = hy

All-map :
    {A : Type 0} → (P Q : A → Type 0) (xs : List A) → ((x : A) → P x → Q x) → All P xs → All Q xs
All-map P Q [] f h = tt
All-map P Q (x ∷ xs) f (h, hs) = (f x h, All-map P Q xs f hs)

-- Whichever calls fail, the job leaves a file in place in a dry run, and in any other run if it is
-- neither an orphan nor at the place an orphan is moved to. An orphan is a visited file that was
-- last changed at the cutoff or before and whose path, as the database answers, no record has.
pub find_and_quarantine_orphans-keeps :
    (cfg : DedupConfig) (root_made : Bool) (luck : MoveLuck) (now : ℕ) (up : Bool) (files : Files)
    (visits : List Visit) (job : Job) (q : Text) (n : Node)
    → job.disk q ≡ some n
    → (cfg.dry_run ≡ true)
      ⊎ ((p : Text)
          → IsOrphan cfg (cutoff_of cfg now) (λ x. exists_by_path up x files) visits p
          → IsApart cfg q p)
    → (find_and_quarantine_orphans cfg root_made luck now up files visits job).0.disk q ≡ some n
unfolding find_and_quarantine_orphans
find_and_quarantine_orphans-keeps cfg root_made luck now up files visits job q n e h =
    let cutoff : ℕ = cutoff_of cfg now in
    let orphans : List Text = scan cfg cutoff (λ p. exists_by_path up p files) none visits in
    let made : Job = make_root cfg job in
    let root_path : Text = clean cfg.quarantine_root ++ (slash ∷ []) in
    let k : made.disk q ≡ some n =
      if-keeps cfg.dry_run job (record job { disk = ensure_parents root_path job.disk }) q (some n)
        e (parents-keep root_path q n job.disk e) in
    let done : (quarantine_all cfg luck orphans made).disk q ≡ some n = elim h [
      | inl dry ↦ ap (λ d. d q) (quarantine_all-dry cfg luck orphans made dry) ∙ k
      | inr apart ↦
          quarantine_all-keeps cfg luck orphans q n made
            (All-map (IsOrphan cfg cutoff (λ x. exists_by_path up x files) visits) (IsApart cfg q)
              orphans apart (scan-IsOrphan cfg cutoff (λ x. exists_by_path up x files) none visits))
            k
    ] in
    let kept : Job → Type 0 = λ j. j.disk q ≡ some n in
    let limited : Job × Bool =
      if ltb cfg.max_move_limit (length orphans)
      then (made, false)
      else (quarantine_all cfg luck orphans made, true) in
    if-job kept (not cfg.dry_run && not root_made) (job, false) limited e
      (if-job kept (ltb cfg.max_move_limit (length orphans)) (made, false)
        (quarantine_all cfg luck orphans made, true) k done)
