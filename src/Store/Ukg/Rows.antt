-- ===== src/Store/Ukg/Rows.antt =====
-- crates/precall-store/src/ukg.rs: clients, configuration, topics and the lookups by id.
pub mod Laws
use pre_call.Prelude.{
  ℕ, ◌+◌, Text, Bool, true, false, ◌&&◌, List, [], ◌∷◌, ◌++◌, Option, none, some, filter, ◌==◌,
  if◌then◌else◌, bytes_eq, map,
}
use pre_call.Prelude.Int.{ℤ}
use pre_call.Store.Ukg.Tables.{
  CaptureRow, ClientRow, ConfigRow, RegionRow, TopicRow, TopicRelation, Relation, Stored, Ukg,
}
use pre_call.Proto.Metadata.{AppRecord}
use pre_call.Store.Ukg.Queues.{has_capture}

-- INSERT … ON CONFLICT("ClientId") DO UPDATE
unfoldable pub put_client : Text → Text → ℤ → List ClientRow → List ClientRow
put_client client_id hostname now [] =
    record { client_id = client_id; hostname = hostname; first_seen = now; last_seen = now } ∷ []
put_client client_id hostname now (r ∷ rest) =
    let later = put_client client_id hostname now rest in
    if bytes_eq r.client_id client_id
    then record r { hostname = hostname; last_seen = now } ∷ rest
    else r ∷ later

unfoldable pub touch_client : Text → Text → ℤ → Ukg → Ukg
unfolding put_client
touch_client client_id hostname now_100ns db = record db {
  clients = put_client client_id hostname now_100ns db.clients;
}

-- INSERT OR REPLACE: the old row goes, the new one comes last.
unfoldable pub delete_config : Text → List ConfigRow → List ConfigRow
delete_config key [] = []
delete_config key (r ∷ rest) =
    let later = delete_config key rest in if bytes_eq r.key key then later else r ∷ later

unfoldable pub set_config : Text → Text → Ukg → Ukg
unfolding delete_config
set_config key value db = record db {
  config = delete_config key db.config ++ (record { key = key; value = value } ∷ []);
}

unfoldable pub config_value : Text → List ConfigRow → Option Text
config_value key [] = none
config_value key (r ∷ rest) =
    let later = config_value key rest in if bytes_eq r.key key then some r.value else later

unfoldable pub get_config : Text → Ukg → Option Text
unfolding config_value
get_config key db = config_value key db.config

unfoldable pub find_topic : Text → List TopicRow → Option ℕ
find_topic title [] = none
find_topic title (t ∷ rest) =
    let later = find_topic title rest in if bytes_eq t.title title then some t.id else later

unfoldable pub relate_topic : ℕ → ℕ → Text → List TopicRelation → List TopicRelation
relate_topic wc_id topic_id score rs =
    filter (λ (r : TopicRelation). not_same r) rs
    ++ (record { capture_id = wc_id; topic_id = topic_id; score = score } ∷ [])
  where
    not_same : TopicRelation → Bool
    not_same r = if r.capture_id == wc_id && r.topic_id == topic_id then false else true

unfoldable pub attach_on : Option ℕ → ℕ → Text → Text → Ukg → Ukg
unfolding relate_topic
attach_on (some topic_id) wc_id title score db = record db {
  topic_relations = relate_topic wc_id topic_id score db.topic_relations;
}
attach_on none wc_id title score db = record db {
  topics = db.topics ++ (record { id = db.next_topic; title = title } ∷ []);
  next_topic = db.next_topic + 1;
  topic_relations = relate_topic wc_id db.next_topic score db.topic_relations;
}

-- The relation refers to the capture: without it the transaction is rolled back.
unfoldable pub attach_topic : ℕ → Text → Text → Ukg → Option Ukg
unfolding has_capture find_topic attach_on
attach_topic wc_id title score db =
    if has_capture wc_id db
    then some (attach_on (find_topic title db.topics) wc_id title score db)
    else none

unfoldable pub find_capture : ℕ → List CaptureRow → Option CaptureRow
find_capture id [] = none
find_capture id (w ∷ rest) =
    let later = find_capture id rest in if w.id == id then some w else later

abbrev pub time_stamp_of : Option CaptureRow → Option ℤ
time_stamp_of none = none
time_stamp_of (some w) = some w.time_stamp

-- The token is read as a text: NULL would be an error of the column's type.
unfoldable pub capture_timestamp : ℕ → Ukg → Option ℤ
unfolding find_capture
capture_timestamp wc_id db = time_stamp_of (find_capture wc_id db.captures)

-- "ScreenRegion" in the order of its ids, which is that of insertion.
unfoldable pub regions_of : ℕ → Ukg → List RegionRow
regions_of wc_id db = filter (λ (r : RegionRow). r.capture_id == wc_id) db.regions
