-- ===== src/StreamImport/Work.antt =====
-- packages/stream-import/src/migration.ts: the state of handing one video to Bunny. The journal is the
-- entry as it was last flushed; what `queueVideo` asks of the outside are parameters on its state.
use bunny_cli_fork.Common.{ℕ, Bool, Option, List, Text}
use bunny_cli_fork.Common.Exec.{Result}
use bunny_cli_fork.Common.Dict.{remove}
use bunny_cli_fork.StreamImport.Entries.{Entry, EntryStatus, PendingFetch}

-- What the source tells of a download, and what an entry keeps of it for its tag.
pub record DownloadInfo : Type 0 where
  pub url : Text
  pub title : Text
  pub description : Option Text
  pub tags : List Text

pub record Notes : Type 0 where
  pub description : Option Text
  pub tags : List Text

pub record FetchResult : Type 0 where
  pub success : Bool
  pub video_id : Option Text
  pub error : Option Text
  pub indeterminate : Bool

pub data Fault (E : Type 0) : Type 0 where
  aborted no_download invalid_url : Fault E
  fetch_failed : Option Text → Fault E
  service : E → Fault E

-- The entry at work with its notes, what the journal has of them, the failed copies not yet deleted,
-- and the outside.
pub record Work (S : Type 0) : Type 0 where
  pub entry : Entry
  pub notes : Notes
  pub journal : Entry
  pub journal_notes : Notes
  pub dead_copies : List (Text × List Text)
  pub host : S

pub record Services (E S : Type 0) : Type 0 where
  pub download_info : Text → S → Result E (Option DownloadInfo) × S
  pub valid_url : Text → Bool
  pub fetch_video : DownloadInfo → Text → Option Text → S → Result E FetchResult × S
  pub set_metadata : Text → Text → Notes → S → Result E Unit × S
  pub delete_video : Text → S → Result E Unit × S
  pub dedup_key : Text → Text
  -- The video's own signal, and the run's.
  pub video_aborted : S → Bool
  pub run_aborted : S → Bool
  pub now : S → Text
  pub describe : Fault E → Text

-- An entry with other values for what the hand-off changes.
abbrev pub revised :
    Entry → Option Text → EntryStatus → Option Text → Option Text → Option PendingFetch → ℕ → Entry
revised m id status error started fetch attempts = record {
  source_video_id = m.source_video_id;
  video_name = m.video_name;
  source_folder_id = m.source_folder_id;
  bunny_video_id = id;
  bunny_collection_id = m.bunny_collection_id;
  status = status;
  error = error;
  started_at = started;
  completed_at = m.completed_at;
  encode_progress = m.encode_progress;
  pending_fetch = fetch;
  attempts = attempts;
  permanent = m.permanent;
}

module _ {S : Type 0} where
  unfoldable pub with_entry : Entry → Work S → Work S
  with_entry m w = record {
    entry = m;
    notes = w.notes;
    journal = w.journal;
    journal_notes = w.journal_notes;
    dead_copies = w.dead_copies;
    host = w.host;
  }

  unfoldable pub with_host : S → Work S → Work S
  with_host s w = record {
    entry = w.entry;
    notes = w.notes;
    journal = w.journal;
    journal_notes = w.journal_notes;
    dead_copies = w.dead_copies;
    host = s;
  }

  unfoldable pub with_notes : Notes → Work S → Work S
  with_notes n w = record {
    entry = w.entry;
    notes = n;
    journal = w.journal;
    journal_notes = w.journal_notes;
    dead_copies = w.dead_copies;
    host = w.host;
  }

  unfoldable pub without_copies : Text → Work S → Work S
  without_copies key w = record {
    entry = w.entry;
    notes = w.notes;
    journal = w.journal;
    journal_notes = w.journal_notes;
    dead_copies = remove key w.dead_copies;
    host = w.host;
  }

  -- Within the run that holds the lock, the store is given the entry as it is.
  unfoldable pub flush : Work S → Work S
  flush w = record {
    entry = w.entry;
    notes = w.notes;
    journal = w.entry;
    journal_notes = w.notes;
    dead_copies = w.dead_copies;
    host = w.host;
  }
