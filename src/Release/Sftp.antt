-- ===== src/Release/Sftp.antt =====
-- The uploads: `run_sftp_batch`, and `sourceforge_web_synchro`, which brings a remote directory in
-- line with a local one.
pub mod Retry
use domq.Prelude.{
  ℕ, zero, suc, ◌+◌, ltb, leb, if◌then◌else◌, Bool, true, false, not, ◌&&◌, ◌||◌, Option, none,
  some, List, [], ◌∷◌, ◌++◌, length, take, drop, map, Result, ok, raise, sftp_error, ◌>>=◌, Text,
  same_text,
}
use domq.JsonTests.Lines.{is_space, strip, split_lines}
use domq.JsonTests.Outcome.{basename, later_or, or_whole}

-- A process that has ended: whether its `returncode` is 0, and what it has written.
pub record Attempt : Type 0 where
  pub succeeded : Bool
  pub stdout : Text

-- `max(1,retry)`
abbrev pub tries : ℕ → ℕ
tries retry = if leb retry 1 then 1 else retry

-- The `for` loop: the error and the output that it leaves, and how often the process was run.
unfoldable pub sftp_loop : (ℕ → Attempt) → ℕ → ℕ → Option Text → Text → Option Text × (Text × ℕ)
sftp_loop attempt retry_index zero error stdout = (error, (stdout, retry_index))
sftp_loop attempt retry_index (suc left) error stdout =
    let a = attempt retry_index in
    let rest = sftp_loop attempt (suc retry_index) left (some a.stdout) a.stdout in
    if a.succeeded then (error, (a.stdout, suc retry_index)) else rest

abbrev pub raise_error : Option Text → Text → Result Text
raise_error none stdout = ok stdout
raise_error (some error) stdout = raise sftp_error

-- `run_sftp_batch`, for what each run of the process would come to, and the number of runs.
unfoldable pub run_sftp_batch : (ℕ → Attempt) → ℕ → Result Text × ℕ
unfolding sftp_loop
run_sftp_batch attempt retry =
    let (error, (stdout, runs)) = sftp_loop attempt 0 (tries retry) none [] in
    (raise_error error stdout, runs)

-- A set of paths.
unfoldable pub is_in : Text → List Text → Bool
is_in x [] = false
is_in x (y ∷ l) = same_text x y || is_in x l

unfoldable pub add : Text → List Text → List Text
unfolding is_in
add x l = if is_in x l then l else x ∷ l

unfoldable pub to_set : List Text → List Text
unfolding add
to_set [] = []
to_set (x ∷ l) = add x (to_set l)

-- `existing_paths - upload_paths`
unfoldable pub minus_set : List Text → List Text → List Text
unfolding is_in
minus_set [] b = []
minus_set (x ∷ a) b = let rest = minus_set a b in if is_in x b then rest else x ∷ rest

-- `line.endswith( suffix )`
unfoldable pub ends_with_text : Text → Text → Bool
ends_with_text suffix [] = same_text suffix []
ends_with_text suffix (c ∷ t) = same_text suffix (c ∷ t) || ends_with_text suffix t

-- `> dir` and `> exit`.
abbrev pub dir_prompt : Text
dir_prompt = b'>' ∷ 32 ∷ b'd' ∷ b'i' ∷ b'r' ∷ []

abbrev pub exit_prompt : Text
exit_prompt = b'>' ∷ 32 ∷ b'e' ∷ b'x' ∷ b'i' ∷ b't' ∷ []

unfoldable pub behind_space : Text → Option Text
behind_space [] = none
behind_space (c ∷ t) = later_or (behind_space t) (is_space c) t

abbrev pub whole_or_none : Text → Option Text
whole_or_none [] = none
whole_or_none (c ∷ t) = some (or_whole (behind_space (c ∷ t)) (c ∷ t))

-- `line.strip().split()[-1:]`
unfoldable pub last_word : Text → Option Text
unfolding behind_space
last_word line = whole_or_none (strip line)

-- The values of `collect`: 0, True and 2.
pub data Collect : Type 0 where
  no_prompt heading paths : Collect

-- `if path and path[0] not in ('.', '..'): existing_paths.add( path[0] )`
unfoldable pub add_path : Option Text → List Text → List Text
unfolding is_in
add_path none existing = existing
add_path (some path) existing =
    if is_in path ((b'.' ∷ []) ∷ (b'.' ∷ b'.' ∷ []) ∷ []) then existing else add path existing

-- The loop over the lines of the listing.
unfoldable pub collect_paths : Collect → List Text → List Text → List Text
unfolding add_path ends_with_text last_word
collect_paths collect [] existing = existing
collect_paths no_prompt (line ∷ lines) existing =
    let asked = collect_paths heading lines existing in
    let rest = collect_paths no_prompt lines existing in
    if ends_with_text dir_prompt (strip line) then asked else rest
collect_paths heading (line ∷ lines) existing =
    let rest = collect_paths paths lines existing in
    if ends_with_text exit_prompt (strip line) then existing else rest
collect_paths paths (line ∷ lines) existing =
    let rest = collect_paths paths lines (add_path (last_word line) existing) in
    if ends_with_text exit_prompt (strip line) then existing else rest

-- The commands in a batch, without `cd`, `lcd` and `exit`.
pub data Batch : Type 0 where
  dir : Batch
  rm : (names : Text) → Batch
  mput : (names : Text) → Batch

-- `' '.join(paths)`
unfoldable pub with_spaces : List Text → Text
with_spaces [] = []
with_spaces (p ∷ []) = p
with_spaces (p ∷ q ∷ more) = p ++ 32 ∷ with_spaces (q ∷ more)

abbrev pub batch_size : ℕ
batch_size = 10

-- The `for` loop over the slices of `upload_paths`.
unfoldable pub upload_batches : ℕ → ℕ → List Text → List Batch
unfolding with_spaces
upload_batches zero index upload_paths = []
upload_batches (suc fuel) index upload_paths =
    let rest = upload_batches fuel (index + batch_size) upload_paths in
    if ltb index (length upload_paths)
    then mput (with_spaces (take batch_size (drop index upload_paths))) ∷ rest
    else []

abbrev pub remove_batch : List Text → List Batch
remove_batch [] = []
remove_batch (p ∷ paths_to_remove) = rm (with_spaces (p ∷ paths_to_remove)) ∷ []

-- The batches behind the first one, in order, for the listing that this has returned.
unfoldable pub synchro_batches : Text → List Text → List Batch
unfolding collect_paths to_set minus_set upload_batches with_spaces
synchro_batches listing doc_paths =
    let existing_paths = collect_paths no_prompt (split_lines listing) [] in
    let upload_paths = to_set (map basename doc_paths) in
    remove_batch (minus_set existing_paths upload_paths)
    ++ upload_batches (suc (length upload_paths)) 0 upload_paths

-- Batches are run until one fails. `run` is `run_sftp_batch` for each of them.
unfoldable pub run_batches : (Batch → Result Text) → List Batch → Result (List Batch)
run_batches run [] = ok []
run_batches run (b ∷ batches) = do _ ← run b; more ← run_batches run batches; ok (b ∷ more)

-- `sourceforge_web_synchro`, and the batches that it has run when it returns.
unfoldable pub web_synchro : (Batch → Result Text) → List Text → Result (List Batch)
unfolding synchro_batches run_batches
web_synchro run doc_paths = do
  listing ← run dir
  batches ← run_batches run (synchro_batches listing doc_paths)
  ok (dir ∷ batches)
