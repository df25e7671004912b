-- ===== src/Models.antt =====
-- models/models.go, worker/types/sort.go and the posted messages of worker/types/messages.go: the data
-- that workers, stores and widgets share.
-- Times are numbers, 0 the zero time; a pointer to a value of another package is its address.
use nyat.Common.{ℕ, Bool, List, Option, Text}
use nyat.Common.Dict.{Dict}

-- The address of a callback, a header block or a reader: only its identity is used.
abbrev pub Ref : Type 0
Ref = ℕ

pub data Flag : Type 0 where
  seen_flag recent_flag answered_flag deleted_flag flagged_flag : Flag

pub record DirectoryInfo : Type 0 where
  pub name : Text
  pub flags : List Text
  pub read_only : Bool
  pub exists : ℕ
  pub recent : ℕ
  pub unseen : ℕ
  pub accurate_counts : Bool

-- A body part without its children.
pub record PartHeader : Type 0 where
  pub mime_type : Text
  pub mime_sub_type : Text
  pub params : Dict Text Text
  pub description : Text
  pub encoding : Text
  pub disposition : Text
  pub disposition_params : Dict Text Text

mutual
  pub data BodyStructure : Type 0 where
    body : PartHeader → Parts → BodyStructure

  pub data Parts : Type 0 where
    nil : Parts
    cons : BodyStructure → Parts → Parts

pub record Address : Type 0 where
  pub name : Text
  pub address : Text

pub record Envelope : Type 0 where
  pub date : ℕ
  pub subject : Text
  pub from : List Address
  pub reply_to : List Address
  pub to : List Address
  pub cc : List Address
  pub bcc : List Address
  pub message_id : Text

pub record MessageInfo : Type 0 where
  pub body_structure : Option BodyStructure
  pub envelope : Option Envelope
  pub flags : List Flag
  pub labels : List Text
  pub internal_date : ℕ
  pub rfc822_headers : Option Ref
  pub size : ℕ
  pub uid : ℕ
  pub error : Option Text

pub data SortField : Type 0 where
  sort_arrival sort_cc sort_date sort_from sort_read sort_size sort_subject sort_to : SortField

pub record SortCriterion : Type 0 where
  pub field : SortField
  pub reverse : Bool

-- worker/types/messages.go: what a worker posts for the user interface. The first argument is the id of
-- the action answered, if there is one.
pub data Post : Type 0 where
  done : ℕ → Post
  error : Option ℕ → Text → Post
  unsupported : ℕ → Post
  directory : ℕ → Text → List Text → Post
  directory_info : DirectoryInfo → Post
  directory_contents : Option ℕ → List ℕ → Post
  message_info : Option ℕ → MessageInfo → Post
  message_body_part : ℕ → ℕ → Ref → Post
  full_message : ℕ → ℕ → Ref → Post
  messages_deleted : Option ℕ → List ℕ → Post
  search_results : ℕ → List ℕ → Post
