-- ===== src/Api/Embed/Outcomes.antt =====
-- What an answer of the AI service means.
use pre_call.Prelude.{ℕ, ◌≡◌, ◌↔◌, ◌⊎◌, inl, inr, Text, List, Option, some, Option-cases, arith}
use pre_call.Api.Embed.{
  rejected, HttpResponse, EmbedBody, is_input_refusal, is_success, is_absent, body_outcome,
  embed_answer, image_text_answer,
}

module _ (read_body : List ℕ → Option EmbedBody) where
  -- An input is given up for good exactly on the statuses 400, 413, 415 and 422, on each of the
  -- three routes: no transport error and no other status ends in `rejected`.
  pub rejected_iff :
      (base : Text) (r : HttpResponse)
      → ((embed_answer read_body base (some r) ≡ rejected)
          ↔ ((r.status ≡ 400) ⊎ ((r.status ≡ 413) ⊎ ((r.status ≡ 415) ⊎ (r.status ≡ 422)))))
        × ((image_text_answer read_body base (some r) ≡ rejected)
            ↔ ((r.status ≡ 400) ⊎ ((r.status ≡ 413) ⊎ ((r.status ≡ 415) ⊎ (r.status ≡ 422)))))
  unfolding embed_answer image_text_answer is_input_refusal is_success is_absent body_outcome
  rejected_iff base r = elim (Option-cases (read_body r.body)) [
    | inl e ↦ rw e (ground arith)
    | inr (x, e) ↦ rw e (ground arith)
  ]
