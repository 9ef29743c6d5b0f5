-- ===== src/Release/Sftp/Retry.antt =====
-- What `run_sftp_batch` does when the process fails.
use domq.Prelude.{
  ℕ, zero, suc, ◌+◌, ◌≤◌, ◌<◌, true, false, some, ok, raise, sftp_error, ◌≡◌, ◌⊎◌, inl, inr, refl,
  arith, Bool-cases, Text, ℕ_discrete,
}
use domq.Release.Sftp.{Attempt, tries, sftp_loop, run_sftp_batch}

-- The process has failed each time but the last, and the last time it succeeded or there was no try
-- left.
abbrev pub IsLastTry : (ℕ → Attempt) → ℕ → ℕ → ℕ → Type 0
IsLastTry attempt first last runs =
    ((k : ℕ) → first ≤ k → suc k < runs → (attempt k).succeeded ≡ false)
    × ((runs ≡ last) ⊎ ((k : ℕ) × (runs ≡ suc k) × ((attempt k).succeeded ≡ true)))

IsLastTry-earlier :
    (attempt : ℕ → Attempt) (index last last' runs : ℕ)
    → (attempt index).succeeded ≡ false
    → last ≡ last'
    → IsLastTry attempt (suc index) last runs
    → IsLastTry attempt index last' runs
IsLastTry-earlier attempt index last last' runs bad e (before, stop) = (
  λ k h l. elim (ℕ_discrete k index) [
    | yes same ↦ rw same bad
    | no other ↦ before k (omega arith) l
  ],
  elim stop [ inl h ↦ inl (omega arith) | inr h ↦ inr h ],
)

sftp_loop-failed :
    (attempt : ℕ → Attempt) (index left : ℕ) (e stdout : Text)
    → (f : Text) × (out : Text) × (runs : ℕ) × (sftp_loop attempt index left (some e) stdout
        ≡ (some f, (out, runs)))
      × (index ≤ runs)
      × IsLastTry attempt index (index + left) runs
unfolding sftp_loop
sftp_loop-failed attempt index zero e stdout =
    (e, stdout, index, refl, omega arith, (λ k h l. absurd (omega arith), inl (omega arith)))
sftp_loop-failed attempt index (suc left) e stdout =
    let (f, out, runs, same, low, tried) =
      sftp_loop-failed attempt (suc index) left (attempt index).stdout (attempt index).stdout in
    elim (Bool-cases (attempt index).succeeded) [
      | inl good ↦ (
        e,
        (attempt index).stdout,
        suc index,
        rw good,
        omega arith,
        (λ k h l. absurd (omega arith), inr (index, refl, good)),
      )
      | inr bad ↦ (
        f,
        out,
        runs,
        rw (bad, same),
        omega arith,
        IsLastTry-earlier attempt index (suc index + left) (index + suc left) runs bad (omega arith)
            tried,
      )
    ]

-- `run_sftp_batch` returns just when the first run of the process succeeds, which then is the only
-- one. If the first run fails it raises SFTPError: it runs the process until it succeeds once or the
-- number of tries, at least one, is used up, but keeps the error of the run before.
pub run_sftp_batch_lem :
    (attempt : ℕ → Attempt) (retry : ℕ)
    → (((attempt 0).succeeded ≡ true) × (run_sftp_batch attempt retry ≡ (ok (attempt 0).stdout, 1)))
      ⊎ (((attempt 0).succeeded ≡ false)
          × (runs : ℕ) × (run_sftp_batch attempt retry ≡ (raise sftp_error, runs))
          × IsLastTry attempt 0 (tries retry) runs)
unfolding run_sftp_batch
run_sftp_batch_lem attempt retry =
    let (left, e) = tries-suc retry in
    elim (Bool-cases (attempt 0).succeeded) [
      | inl good ↦ inl (good, unfold sftp_loop in rw (e, good))
      | inr bad ↦
          let (f, out, runs, same, low, tried) =
            sftp_loop-failed attempt 1 left (attempt 0).stdout (attempt 0).stdout in
          inr (
            bad,
            runs,
            unfold sftp_loop in rw (e, bad, same),
            IsLastTry-earlier attempt 0 (1 + left) (tries retry) runs bad (omega (arith, e)) tried,
          )
    ]
  where
    tries-suc : (r : ℕ) → (left : ℕ) × (tries r ≡ suc left)
    tries-suc zero = (0, ground arith)
    tries-suc (suc r) = (r, ground arith)
