-- ===== src/Store/Ukg/Tables.antt =====
-- The tables of UKG_SCHEMA that the code reads or writes, and the parts of SQL that it relies on.
use pre_call.Prelude.{ℕ, Text, Bool, false, List, [], Option, none, some, bytes_eq}
use pre_call.Prelude.Int.{ℤ}
use pre_call.Proto.Metadata.{AppRecord, FileRecord, WebRecord}

pub record CaptureRow : Type 0 where
  pub id : ℕ
  pub name : Text
  pub image_token : Option Text
  pub is_foreground : Bool
  pub window_id : ℤ
  pub window_bounds : Text
  pub window_title : Text
  pub properties : Option Text
  pub time_stamp : ℤ
  pub is_processed : Bool
  pub activation_uri : Option Text
  pub activity_id : Option Text
  pub fallback_uri : Option Text

-- A row of "App", "File" or "Web": the columns are the fields of the record it was made from.
pub record Stored (R : Type 0) : Type 0 where
  pub id : ℕ
  pub content : R

-- A row of one of the three relation tables; its own key is never read.
pub record Relation : Type 0 where
  pub capture_id : ℕ
  pub other_id : ℕ

-- "App", "File" or "Web" with its relation table.
pub record Linked (R : Type 0) : Type 0 where
  pub rows : List (Stored R)
  pub next_id : ℕ
  pub relations : List Relation

pub record RegionRow : Type 0 where
  pub id : ℕ
  pub capture_id : ℕ
  pub region_kind : Text
  pub ocr_text : Option Text
  pub bounds : Text

pub record TextIndexRow : Type 0 where
  pub rowid : ℕ
  pub name : Text
  pub window_title : Text
  pub ocr_text : Text

pub record TopicRow : Type 0 where
  pub id : ℕ
  pub title : Text

-- The score is an f64 that is only stored: its text.
pub record TopicRelation : Type 0 where
  pub capture_id : ℕ
  pub topic_id : ℕ
  pub score : Text

pub record ClientRow : Type 0 where
  pub client_id : Text
  pub hostname : Text
  pub first_seen : ℤ
  pub last_seen : ℤ

pub record DwellRow : Type 0 where
  pub subject : Text
  pub hour_of_day : ℤ
  pub day_of_week : ℤ
  pub hour_start : ℤ
  pub dwell_time : ℤ

pub record ConfigRow : Type 0 where
  pub key : Text
  pub value : Text

pub data EmbeddingState : Type 0 where
  pending done skipped : EmbeddingState

pub record ImageEmbeddingRow : Type 0 where
  pub capture_id : ℕ
  pub state : EmbeddingState
  pub attempts : ℤ
  pub last_error : Option Text
  pub updated_at : ℤ

pub record EnrichAttemptRow : Type 0 where
  pub capture_id : ℕ
  pub updated_at : ℤ

pub record Ukg : Type 0 where
  pub captures : List CaptureRow
  pub next_capture : ℕ
  pub apps : Linked AppRecord
  pub files : Linked FileRecord
  pub webs : Linked WebRecord
  pub regions : List RegionRow
  pub next_region : ℕ
  pub text_index : List TextIndexRow
  pub topics : List TopicRow
  pub next_topic : ℕ
  pub topic_relations : List TopicRelation
  pub clients : List ClientRow
  pub app_dwell : List DwellRow
  pub web_dwell : List DwellRow
  pub config : List ConfigRow
  pub image_embeddings : List ImageEmbeddingRow
  pub enrich_attempts : List EnrichAttemptRow

-- What `init` creates.
abbrev pub empty : Ukg
empty = record {
  captures = [];
  next_capture = 1;
  apps = record { rows = []; next_id = 1; relations = [] };
  files = record { rows = []; next_id = 1; relations = [] };
  webs = record { rows = []; next_id = 1; relations = [] };
  regions = [];
  next_region = 1;
  text_index = [];
  topics = [];
  next_topic = 1;
  topic_relations = [];
  clients = [];
  app_dwell = [];
  web_dwell = [];
  config = [];
  image_embeddings = [];
  enrich_attempts = [];
}

-- `"ImageToken" = ?`: NULL is equal to nothing.
unfoldable pub text_is : Option Text → Text → Bool
text_is none t = false
text_is (some s) t = bytes_eq s t

-- `IFNULL(x, '')`.
abbrev pub if_null : Option Text → Text
if_null none = []
if_null (some t) = t
