-- ===== src/Tests/Enrich.antt =====
-- The enrichment of a client with one capture.
use pre_call.Prelude.{
  ℕ, ◌≡◌, refl, codes, true, false, List, [], ◌∷◌, none, some, ok, length, bytes_eq,
}
use pre_call.Prelude.Int.{pos}
use pre_call.Store.Ukg.Tables.{CaptureRow, empty, done}
use pre_call.Store.Ukg.Queues.{has_capture, image_embedding_state, embedding_of}
use pre_call.Store.Semantic.{
  SemanticIndex, f32s_to_bytes, has_item, is_linked, item_id_for_capture, le_bytes,
}
use pre_call.Store.Semantic.Search.{join_rows}
use pre_call.Api.Embed.{retry, embedded}
use pre_call.Api.Enrich.{EnrichState, EnrichEnv, image_done, no_stats}
use pre_call.Api.Enrich.Image.{
  image_leg, image_step, step_on, step_present, settle, embed_on, was_done,
}
use pre_call.Api.Enrich.Pass.{enrich_client}
use pre_call.Api.Enrich.Leg.{image_leg-once}
use pre_call.Api.Enrich.Spaces.{IsSound}
use pre_call.Api.Enrich.Returns.{enrich_client-returns}

abbrev pub row : CaptureRow
row = record {
  id = 7;
  name = codes "editor";
  image_token = some (codes "t1");
  is_foreground = true;
  window_id = pos 4;
  window_bounds = [];
  window_title = [];
  properties = none;
  time_stamp = pos 133000000000000000;
  is_processed = false;
  activation_uri = none;
  activity_id = none;
  fallback_uri = none;
}

abbrev pub index : SemanticIndex
index = record { items = []; graph = []; next_graph = 1; metadata = []; dim = 2; space = none }

abbrev stores : EnrichState
stores = record {
  ukg = record empty { captures = row ∷ []; next_capture = 8 };
  texts = index;
  images = index;
  stats = no_stats;
}

abbrev service : EnrichEnv
service = record {
  client = codes "c";
  dim = 2;
  objects = record { objects = []; cipher = none };
  now = pos 133000000000000100;
  step_clock = λ id. pos 133000000000000200;
  record_clock = λ id. pos 133000000000000300;
  embed_text = λ id text. embedded (1 ∷ length text ∷ []) (codes "m1");
  embed_image = λ id jpeg. embedded (2 ∷ length jpeg ∷ []) (codes "m2");
  topics = λ id text. (codes "work", codes "0.9") ∷ [];
  is_alphanumeric = λ c. true;
  encrypt = λ key nonce aad bytes. bytes;
  decrypt = λ key nonce aad bytes. some bytes;
  is_under = λ a b. bytes_eq a b;
  describe = λ e. codes "object";
}

enrich_client-returns_example :
    (s' : EnrichState) × (enrich_client service (some (codes "m1", codes "m2")) stores ≡ ok s')
    × ((id : ℕ) → has_capture id s'.ukg ≡ has_capture id stores.ukg)
    × IsSound (λ space e. length e.blob ≡ 8) 2 s'.texts
    × IsSound (λ space e. length e.blob ≡ 8) 2 s'.images
unfolding join_rows bytes_eq f32s_to_bytes
enrich_client-returns_example =
    enrich_client-returns service (λ space e. length e.blob ≡ 8) (λ space e. length e.blob ≡ 8)
      (λ id text. (refl, refl)) (λ id jpeg. (refl, refl)) (some (codes "m1", codes "m2")) stores
      (refl, (tt, tt, tt), refl) (refl, (tt, tt, tt), refl)

-- The same client with the embedding in the index.
abbrev item : List ℕ
item = 0 ∷ 0 ∷ 0 ∷ 0 ∷ 0 ∷ 0 ∷ 0 ∷ 0 ∷ 7 ∷ 0 ∷ 0 ∷ 0 ∷ 0 ∷ 0 ∷ 0 ∷ 0 ∷ []

abbrev embedded_before : EnrichState
embedded_before = record stores {
  ukg = record stores.ukg {
    image_embeddings =
        record {
          capture_id = 7;
          state = done;
          attempts = pos 1;
          last_error = none;
          updated_at = pos 5;
        }
        ∷ [];
  };
  images = record index {
    items = item ∷ [];
    graph = record { id = 1; embedding = 3 ∷ 0 ∷ 0 ∷ 0 ∷ 4 ∷ 0 ∷ 0 ∷ 0 ∷ [] } ∷ [];
    next_graph = 2;
    metadata =
        record { embedding_id = 1; item_id = item; region_id = none; metadata_json = none } ∷ [];
  };
}

-- An embedder that does not answer, and no objects.
abbrev offline : EnrichEnv
offline = record service {
  embed_image = λ id jpeg. retry;
  objects = record service.objects { objects = [] };
}

image_leg-once_example :
    image_leg offline 7 none (codes "t2") embedded_before ≡ ok (image_done, embedded_before)
unfolding has_capture image_leg image_step step_on step_present settle embed_on was_done
    image_embedding_state embedding_of has_item is_linked item_id_for_capture le_bytes bytes_eq
image_leg-once_example =
    image_leg-once service offline 7 (some (pos 133000000000000000)) none (codes "t1") (codes "t2")
      embedded_before embedded_before refl refl refl
