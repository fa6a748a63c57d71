-- ===== src/Tests/Routes.antt =====
-- The routes at a concrete client.
use pre_call.Prelude.{
  ◌⊎◌, ℕ, ◌+◌, ◌-◌, ◌≡◌, refl, codes, true, List, [], ◌∷◌, none, some, Result, ok, err, length,
  bytes_eq, ltb, All, ◌≤◌,
}
use pre_call.Prelude.Int.{pos}
use pre_call.Store.Objects.{put, ymd_from_filetime, key_path, clean, is_clean}
use pre_call.Store.Ukg.Tables.{RegionRow, empty}
use pre_call.Store.Ukg.Rows.{find_capture}
use pre_call.Store.Ukg.Timeline.{TimelineEntry}
use pre_call.Store.Ukg.Hits.{SearchHit}
use pre_call.Api.Embed.{disabled}
use pre_call.Api.Routes.{
  RouteEnv, ClientStores, Directory, client_stores, client_of, find_directory, snapshot, export,
}
use pre_call.Api.Routes.Snapshot.{snapshot-put}
use pre_call.Api.Routes.Export.{export-returns}
use pre_call.Api.Search.Rank.{Fusion, fused_score, reciprocal_rank_fusion}
use pre_call.Api.Search.Sums.{legs_sum, reciprocal_rank_fusion-eq}
use pre_call.Api.Search.{ApiError, SearchState}
use pre_call.Api.Search.Handler.{search}
use pre_call.Api.Search.Request.{SearchEnv, SearchBody}
use pre_call.Store.Ukg.Timeline.Filters.{IsAllowed}
use pre_call.Api.Search.Results.{search-AreLetIn}
use pre_call.Tests.Enrich.{row, index}
use pre_call.Tests.Ingest.{
  encrypt, decrypt, length-encrypt, decrypt-encrypt, iv, vault, is_alphanumeric,
}

abbrev routes : RouteEnv
routes = record {
  parse_uuid = λ t. some t;
  is_alphanumeric = is_alphanumeric;
  encrypt = encrypt;
  decrypt = decrypt;
  is_under = bytes_eq;
  object_key = 7 ∷ [];
}

abbrev stores : ClientStores
stores = record {
  db = record empty { captures = row ∷ []; next_capture = 8 };
  objects =
      (put is_alphanumeric encrypt decrypt (iv 0) (codes "c")
        (ymd_from_filetime (pos 133000000000000000)) (codes "t1") (codes "jpg") (1 ∷ 2 ∷ [])
        vault).1;
}

abbrev root : List Directory
root = record { name = codes "c"; stores = stores } ∷ []

snapshot-put_example : snapshot routes (codes "c") 7 root ≡ ok (true, 1 ∷ 2 ∷ [])
unfolding client_stores client_of find_directory find_capture bytes_eq key_path clean is_clean
snapshot-put_example =
    snapshot-put routes length-encrypt decrypt-encrypt (codes "c") (codes "t1") (iv 0) (1 ∷ 2 ∷ [])
      7 row stores vault root refl refl refl refl refl refl refl

export-returns_example :
    (out : List (TimelineEntry × List RegionRow)) × (export stores.db ≡ some out)
export-returns_example = export-returns stores.db

-- Sums of the shares 100 - rank.
abbrev sums : Fusion ℕ
sums = record {
  nothing = 0;
  plus = λ x y. x + y;
  share = λ rank. 100 - rank;
  greater = λ x y. ltb y x;
}

reciprocal_rank_fusion-eq_example :
    fused_score 4 (reciprocal_rank_fusion sums ((9 ∷ 4 ∷ []) ∷ (4 ∷ []) ∷ []))
    ≡ legs_sum sums 4 ((9 ∷ 4 ∷ []) ∷ (4 ∷ []) ∷ []) none
reciprocal_rank_fusion-eq_example = reciprocal_rank_fusion-eq sums 4 ((9 ∷ 4 ∷ []) ∷ (4 ∷ []) ∷ [])

abbrev searched : SearchEnv ℕ ℕ
searched = record {
  db = record stores.db {
    text_index =
        record { rowid = 7; name = codes "editor"; window_title = []; ocr_text = codes "door" }
        ∷ [];
  };
  texts = index;
  images = index;
  dim = 2;
  embed_text = λ text. disabled;
  embed_image = λ jpeg. disabled;
  embed_image_text = λ text. disabled;
  fts_match = λ query t. some (t.ocr_text, 5);
  lower = λ x y. ltb x y;
  negate = λ x. x;
  decode_base64 = λ b64. none;
  cosine = λ x y. 1;
  greater_sim = λ x y. ltb y x;
  is_positive = λ x. ltb 0 x;
  f64 = sums;
  arrange = λ hits. hits;
}

abbrev request : SearchBody
request = record {
  query = codes "door";
  start = some (pos 132000000000000000);
  end = none;
  app_filter = [];
  limit = none;
  mode = none;
  image = none;
}

abbrev results_of : Result ApiError (List (SearchHit ℕ) × SearchState ℕ) → List (SearchHit ℕ)
results_of (ok (results, s)) = results
results_of (err e) = []

abbrev state_of : Result ApiError (List (SearchHit ℕ) × SearchState ℕ) → SearchState ℕ
state_of (ok (results, s)) = s
state_of (err e) = record { hits = []; leg_ranks = []; fts_ids = []; legs = []; notes = [] }

one_result : length (results_of (search searched request)) ≡ 1
unfolding search bytes_eq
one_result = refl

answered :
    search searched request
    ≡ ok (results_of (search searched request), state_of (search searched request))
unfolding search bytes_eq
answered = refl

search-AreLetIn_example :
    All
      (λ h.
        ((request.start ≡ none) × (request.end ≡ none) × (request.app_filter ≡ []))
        ⊎ IsAllowed request.start request.end request.app_filter searched.db h.window_capture_id)
      (results_of (search searched request))
    × (length (results_of (search searched request)) ≤ 200)
search-AreLetIn_example =
    search-AreLetIn searched (λ xs h m. m) request (results_of (search searched request))
      (state_of (search searched request)) answered
