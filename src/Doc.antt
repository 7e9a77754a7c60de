-- ===== src/Doc.antt =====
-- doc.go and the doc part of arrival.go: docs, and what names or inserts them.
use entroq.Base.{
  ℤ, Time, Duration, string_eq, nat_eq, ◌==◌, ℕ, String, Bool, not, ◌&&◌, Option, List,
}
use entroq.Task.{TaskId}

-- Names a doc by its ID, or a whole doc set by its key.

pub record DocId : Type 0 where
  pub ns : String
  pub id : String
  pub key : String
  pub version : ℕ

-- NewDocID
abbrev pub new_doc_id : String → String → ℕ → DocId
new_doc_id ns id version = record { ns = ns; id = id; key = ""; version = version }

-- NewDocSetRef
abbrev pub new_doc_set_ref : String → String → ℕ → DocId
new_doc_set_ref ns key version = record { ns = ns; id = ""; key = key; version = version }

-- DocID.IsSetRef
unfoldable pub is_set_ref : DocId → Bool
is_set_ref r = r.id == "" && not (r.key == "")

pub record DocData : Type 0 where
  pub ns : String
  pub id : String
  pub by : Duration
  pub at : Time
  pub key : String
  pub secondary_key : String
  pub content : String
  pub created : Time
  pub modified : Time

pub record Doc : Type 0 where
  pub ns : String
  pub id : String
  pub version : ℕ
  pub claimant : String
  pub by : Duration
  pub at : Time
  pub key : String
  pub secondary_key : String
  pub content : String
  pub created : Time
  pub modified : Time

pub record DocArrival : Type 0 where
  pub doc_id : DocId
  pub open doc_id use *
  pub by : Duration

pub record DocSet : Type 0 where
  pub ns : String
  pub key : String
  pub version : ℕ
  pub claimant : String
  pub at : Time
  pub num_docs : ℤ
  pub docs : List Doc

pub record DocSetClaim : Type 0 where
  pub ns : String
  pub key : String
  pub omit_members : Bool

-- `leases` counts the lease arguments given; `none` is a nil TaskToMatch.
pub record DocClaim : Type 0 where
  pub sets : List DocSetClaim
  pub claimant : String
  pub duration : Duration
  pub task_to_match : Option TaskId
  pub leases : ℕ
