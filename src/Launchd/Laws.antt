-- ===== src/Launchd/Laws.antt =====
-- What the program relies on of launchctlutil, where `known` says whether launchd has a job of a
-- label.
use cyberdaemon.Prelude.{ℕ, Bool, true, false, ◌≡◌, ◌↔◌, none, Bytes, ok}
use cyberdaemon.Launchd.{Kind, JobStatus, job_not_installed, Mac}

pub record IsLawful (M : Mac) (known : M.State → Bytes → Bool) : Type 0 where
  -- A status that is returned says whether launchd has the job.
  pub status-known :
      (s : M.State) (label : Bytes) (job : JobStatus)
      → M.current_status s label ≡ ok job
      → (job ≡ job_not_installed) ↔ (known s label ≡ false)
  -- Directories are nothing to launchd.
  pub known-mkdir_all :
      (s : M.State) (path label : Bytes) (perm : ℕ)
      → known (M.mkdir_all s path perm).0 label ≡ known s label
  -- A successful installation adds the job of a configuration, and a successful removal of the
  -- configuration's file takes it out.
  pub known-install :
      (s : M.State) (config : M.Configuration)
      → (M.install s config).1 ≡ none
      → known (M.install s config).0 (M.get_label config) ≡ true
  pub known-remove :
      (s : M.State) (config : M.Configuration) (path : Bytes)
      → M.get_file_path s config ≡ ok path
      → (M.remove s path (M.get_kind config)).1 ≡ none
      → known (M.remove s path (M.get_kind config)).0 (M.get_label config) ≡ false
  -- Jobs stay where they are when they are started and stopped.
  pub known-start :
      (s : M.State) (label : Bytes) (kind : Kind)
      → known (M.start s label kind).0 label ≡ known s label
  pub known-stop :
      (s : M.State) (label : Bytes) (kind : Kind)
      → known (M.stop s label kind).0 label ≡ known s label
