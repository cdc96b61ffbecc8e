-- ===== src/Database/Migrations/Again.antt =====
-- src/database/migrations/migration-runner.ts: after a run that succeeds, a second one finds nothing to
-- do.
use log_stream.Base.{
  ℕ, ◌≡◌, refl, ap, subst, ◌∙◌, Bool, true, false, not, ◌||◌, inl, inr, List, [], ◌∷◌, ◌++◌, none,
  some, map, All, keep_if, if◌then◌else◌, Bool-cases, ==-refl, arith, ◌==◌,
}
use log_stream.Base.Int.{ℤ, pos}
use log_stream.Base.Text.{text_eq_refl}
use log_stream.Database.Migrations.{
  MigrationFile, AppliedMigration, Result, ok, error, local_by_version, has_version, check_local,
  and_version, applied_versions, has, without, find_pending_migrations,
}

abbrev pub row_of : MigrationFile → AppliedMigration
row_of m = record { version = pos m.version; filename = m.filename; checksum = m.checksum }

abbrev pub version_in_history : MigrationFile → ℤ
version_in_history m = pos m.version

-- No two files have one version: what `buildMigrationPlan` sees to.
abbrev pub HasDistinctVersions : List MigrationFile → Type 0
HasDistinctVersions [] = Unit
HasDistinctVersions (m ∷ ms) =
    All (λ other. (other.version == m.version) ≡ false) ms × HasDistinctVersions ms

-- The migration that the map holds for its version.
abbrev IsFound : List MigrationFile → MigrationFile → Type 0
IsFound ms m = local_by_version ms (version_in_history m) ≡ some m

missing :
    (v : ℕ) (ms : List MigrationFile)
    → All (λ other. (other.version == v) ≡ false) ms
    → local_by_version ms (pos v) ≡ none
unfolding local_by_version
missing v [] h = refl
missing v (m ∷ ms) (h, k) = rw (missing v ms k) (rw (flip m.version v h) refl)
  where
    flip : (a b : ℕ) → (a == b) ≡ false → (b == a) ≡ false
    flip a b h = ground arith

IsFound-later :
    (m : MigrationFile) (ms found : List MigrationFile)
    → All (IsFound ms) found
    → All (IsFound (m ∷ ms)) found
unfolding local_by_version
IsFound-later m ms [] h = tt
IsFound-later m ms (x ∷ found) (h, k) = (rw h refl, IsFound-later m ms found k)

All-IsFound : (ms : List MigrationFile) → HasDistinctVersions ms → All (IsFound ms) ms
unfolding local_by_version
All-IsFound [] h = tt
All-IsFound (m ∷ ms) (h, k) = (
  rw (missing m.version ms h) (rw (==-refl m.version) refl),
  IsFound-later m ms ms (All-IsFound ms k),
)

All-keep_if :
    (P : MigrationFile → Type 0) (test : MigrationFile → Bool) (ms : List MigrationFile)
    → All P ms
    → All P (keep_if test ms)
All-keep_if P test [] h = tt
All-keep_if P test (m ∷ ms) (h, k) = elim (Bool-cases (test m)) [
  | inl b ↦ rw b (h, All-keep_if P test ms k)
  | inr b ↦ rw b (All-keep_if P test ms k)
]

and_version_elim {κ} :
    {P : Type κ} (r : Result ℤ) (later : Result (List ℤ)) (versions : List ℤ)
    → and_version r later ≡ ok versions
    → ((v : ℤ) (vs : List ℤ) → r ≡ ok v → later ≡ ok vs → versions ≡ v ∷ vs → P)
    → P
and_version_elim (error e) later versions h use_it = absurd (cc)
and_version_elim (ok v) (error e) versions h use_it = absurd (cc)
and_version_elim (ok v) (ok vs) versions h use_it = use_it v vs refl refl (cc)

ok-injective : {A : Type 0} {a b : A} → ok a ≡ ok b → a ≡ b
ok-injective h = cc

-- The versions of rows that the map's migrations make.
applied_versions-map :
    (ms pending : List MigrationFile)
    → All (IsFound ms) pending
    → applied_versions ms (map row_of pending) ≡ ok (map version_in_history pending)
unfolding applied_versions
applied_versions-map ms [] found = refl
applied_versions-map ms (m ∷ pending) (h, k) = rw h (
    rw (text_eq_refl m.filename, text_eq_refl m.checksum)
      (ap (and_version (ok (pos m.version))) (applied_versions-map ms pending k)))

-- The versions of a history that is taken further by migrations of the map.
applied_versions-append :
    (ms : List MigrationFile) (history : List AppliedMigration) (pending : List MigrationFile)
    (versions : List ℤ)
    → All (IsFound ms) pending
    → applied_versions ms history ≡ ok versions
    → applied_versions ms (history ++ map row_of pending)
      ≡ ok (versions ++ map version_in_history pending)
unfolding applied_versions
applied_versions-append ms [] pending versions found h =
    subst
      (λ vs. applied_versions ms (map row_of pending) ≡ ok (vs ++ map version_in_history pending))
      (ok-injective h) (applied_versions-map ms pending found)
applied_versions-append ms (row ∷ history) pending versions found h =
    and_version_elim (check_local row (local_by_version ms row.version))
      (applied_versions ms history) versions h
      λ v vs a b e.
        rw (e, a) (ap (and_version (ok v)) (applied_versions-append ms history pending vs found b))

has-append : (vs ws : List ℤ) (v : ℕ) → has (vs ++ ws) v ≡ (has vs v || has ws v)
unfolding has
has-append [] ws v = refl
has-append (u ∷ vs) ws v = elim (Bool-cases (has_version v u)) [
  | inl b ↦ rw b refl
  | inr b ↦ rw b (has-append vs ws v)
]

-- A version that is not among those applied is among those that are pending.
abbrev IsCovered : List ℤ → List MigrationFile → MigrationFile → Type 0
IsCovered versions pending m =
    (has versions m.version || has (map version_in_history pending) m.version) ≡ true

or_true : (b c : Bool) → c ≡ true → (b || c) ≡ true
or_true true c h = refl
or_true false c h = h

IsCovered-later :
    (versions : List ℤ) (m : MigrationFile) (pending ms : List MigrationFile)
    → All (IsCovered versions pending) ms
    → All (IsCovered versions (m ∷ pending)) ms
unfolding has
IsCovered-later versions m pending [] h = tt
IsCovered-later versions m pending (x ∷ ms) (h, k) = (
  elim (Bool-cases (has_version x.version (pos m.version))) [
    | inl b ↦ or_true (has versions x.version) _ (rw b refl)
    | inr b ↦ rw b h
  ],
  IsCovered-later versions m pending ms k,
)

IsCovered-cons :
    (versions : List ℤ) (m : MigrationFile) (pending ms : List MigrationFile) (is_applied : Bool)
    → has versions m.version ≡ is_applied
    → All (IsCovered versions pending) ms
    → All (IsCovered versions (if not is_applied then m ∷ pending else pending)) (m ∷ ms)
unfolding has
IsCovered-cons versions m pending ms true e h = (rw e refl, h)
IsCovered-cons versions m pending ms false e h = (
  or_true (has versions m.version) _ (rw (==-refl m.version) refl),
  IsCovered-later versions m pending ms h,
)

All-IsCovered :
    (versions : List ℤ) (ms : List MigrationFile)
    → All (IsCovered versions (keep_if (λ m. not (has versions m.version)) ms)) ms
All-IsCovered versions [] = tt
All-IsCovered versions (m ∷ ms) =
    IsCovered-cons versions m _ ms (has versions m.version) refl (All-IsCovered versions ms)

none_kept :
    (test : MigrationFile → Bool) (ms : List MigrationFile)
    → All (λ m. test m ≡ true) ms
    → keep_if (λ m. not (test m)) ms ≡ []
none_kept test [] h = refl
none_kept test (m ∷ ms) (h, k) = rw h (none_kept test ms k)

All-has :
    (versions : List ℤ) (pending ms : List MigrationFile)
    → All (IsCovered versions pending) ms
    → All (λ m. has (versions ++ map version_in_history pending) m.version ≡ true) ms
All-has versions pending [] h = tt
All-has versions pending (m ∷ ms) (h, k) = (
  has-append versions (map version_in_history pending) m.version ∙ h,
  All-has versions pending ms k,
)

without-covered :
    (ms : List MigrationFile) (history : List AppliedMigration) (versions : Result (List ℤ))
    (pending : List MigrationFile)
    → HasDistinctVersions ms
    → applied_versions ms history ≡ versions
    → without ms versions ≡ ok pending
    → without ms (applied_versions ms (history ++ map row_of pending)) ≡ ok []
without-covered ms history (error e) pending distinct a h = absurd (cc)
without-covered ms history (ok versions) pending distinct a h =
    rw
      (applied_versions-append ms history pending versions
        (subst (All (IsFound ms)) (ok-injective h)
          (All-keep_if (IsFound ms) _ ms (All-IsFound ms distinct)))
        a)
      (ap ok (
        none_kept (λ m. has (versions ++ map version_in_history pending) m.version) ms
          (All-has versions pending ms (
            subst (λ p. All (IsCovered versions p) ms) (ok-injective h)
              (All-IsCovered versions ms)))))

-- For files with distinct versions: once the rows of the pending migrations are in the history, none is pending, and the history still agrees with the files.
pub find_pending_migrations-map :
    (migrations : List MigrationFile) (history : List AppliedMigration)
    (pending : List MigrationFile)
    → HasDistinctVersions migrations
    → find_pending_migrations migrations history ≡ ok pending
    → find_pending_migrations migrations (history ++ map row_of pending) ≡ ok []
unfolding find_pending_migrations
find_pending_migrations-map migrations history pending distinct h =
    without-covered migrations history (applied_versions migrations history) pending distinct refl h
