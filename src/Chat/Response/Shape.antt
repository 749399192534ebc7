-- ===== src/Chat/Response/Shape.antt =====
-- Which responses of a backend app/api/chat.py can answer.
use syn.Common.{ℕ, String, Option, ◌≡◌, refl, ◌↔◌, List, [], ◌∷◌, All}
use syn.Common.Int.{ℤ}
use syn.Common.Json.{Json, num, str}
use syn.Errors.{Result, ok, err, ◌>>=◌}
use syn.Schemas.{IsText, IsOptionalText, text_field-Accepts, optional_str-Accepts, literal-Accepts}
use syn.Usage.{UsageRecord, ApiKey, Client}
use syn.LlamaCpp.{or_json}
use syn.LlamaCpp.Completion.{Choice, ChatCompletionUsage, ChatCompletionResponse}
use syn.Chat.{Job, model_of, answered}
use syn.Chat.Recording.{KeepsUsage, answer-EndsAs}
use syn.Chat.Response.{
  answer, ApiChoice, ApiUsage, ApiResponse, api_choice, api_choices, api_usage, api_response,
}

-- A chain of steps succeeds exactly when each of them does, where what the later ones need does not
-- depend on the value.
>>=-iff {ℓ κ} :
    {A : Type ℓ} {B : Type κ} {P Q : Type 0} (step : Result A) (next : A → Result B)
    → ((a : A) × (step ≡ ok a)) ↔ P
    → ((a : A) → ((b : B) × (next a ≡ ok b)) ↔ Q)
    → ((b : B) × ((step >>= next) ≡ ok b)) ↔ (P × Q)
>>=-iff (ok a) next p q = (λ h. (p.0 (a, refl), (q a).0 h), λ (_, h). (q a).1 h)
>>=-iff (err e) next p q = (λ (b, h). absurd (cc), λ (h, _). let (a, e') = p.1 h in absurd (cc))

-- The last step of a chain.
map_iff {ℓ κ} :
    {A : Type ℓ} {B : Type κ} {P : Type 0} (step : Result A) (f : A → B)
    → ((a : A) × (step ≡ ok a)) ↔ P
    → ((b : B) × ((step >>= λ a. ok (f a)) ≡ ok b)) ↔ P
map_iff (ok a) f p = (λ h. p.0 (a, refl), λ h. (f a, refl))
map_iff (err e) f p = (λ (b, h). absurd (cc), λ h. let (a, e') = p.1 h in absurd (cc))

abbrev pub IsShapedChoice : Choice → Type 0
IsShapedChoice c = (c.role ≡ str "assistant") × (IsText c.content × IsOptionalText c.finish_reason)

api_choice_iff : (c : Choice) → ((a : ApiChoice) × (api_choice c ≡ ok a)) ↔ IsShapedChoice c
unfolding api_choice
api_choice_iff c = >>=-iff _ _ (literal-Accepts "assistant" c.role) λ role.
    >>=-iff _ _ (text_field-Accepts c.content)
      λ content. map_iff _ _ (optional_str-Accepts c.finish_reason)

api_choices_iff :
    (cs : List Choice) → ((rs : List ApiChoice) × (api_choices cs ≡ ok rs)) ↔ All IsShapedChoice cs
unfolding api_choices
api_choices_iff [] = (λ h. tt, λ u. ([], refl))
api_choices_iff (c ∷ cs) = >>=-iff _ _ (api_choice_iff c) λ choice. map_iff _ _ (api_choices_iff cs)

same : (P : Type 0) → P ↔ P
same P = (λ p. p, λ p. p)

module _ (int_field : Json → Result ℤ) where
  abbrev pub IsInt : Json → Type 0
  IsInt v = (n : ℤ) × (int_field v ≡ ok n)

  abbrev pub IsShapedUsage : ChatCompletionUsage → Type 0
  IsShapedUsage u = IsInt u.prompt_tokens × (IsInt u.completion_tokens × IsInt u.total_tokens)

  api_usage_iff :
      (u : ChatCompletionUsage)
      → ((a : ApiUsage) × (api_usage int_field u ≡ ok a)) ↔ IsShapedUsage u
  unfolding api_usage
  api_usage_iff u = >>=-iff _ _ (same (IsInt u.prompt_tokens)) λ prompt.
      >>=-iff _ _ (same (IsInt u.completion_tokens))
        λ completion. map_iff _ _ (same (IsInt u.total_tokens))

  -- A response of the shape that the schemas declare, after the defaults for its id and its time.
  abbrev pub IsShaped : String → ℕ → ChatCompletionResponse → Type 0
  IsShaped fallback_id now r =
      IsText (or_json r.id (str fallback_id))
      × ((r.object_name ≡ str "chat.completion")
          × (IsInt (or_json r.created (num now))
              × (All IsShapedChoice r.choices
                  × (IsShapedUsage r.usage × IsOptionalText r.system_fingerprint))))

  api_response_iff :
      (fallback_id : String) (now : ℕ) (model : String) (r : ChatCompletionResponse)
      → ((a : ApiResponse) × (api_response int_field fallback_id now model r ≡ ok a))
        ↔ IsShaped fallback_id now r
  unfolding api_response
  api_response_iff fallback_id now model r =
      >>=-iff _ _ (text_field-Accepts (or_json r.id (str fallback_id))) λ id.
        >>=-iff _ _ (literal-Accepts "chat.completion" r.object_name) λ name.
          >>=-iff _ _ (same (IsInt (or_json r.created (num now)))) λ created.
            >>=-iff _ _ (api_choices_iff r.choices) λ choices.
              >>=-iff _ _ (api_usage_iff r.usage)
                λ usage. map_iff _ _ (optional_str-Accepts r.system_fingerprint)

-- A request whose backend responds is recorded as completed, with the numbers of tokens of the response,
-- whatever else the response holds; it is not recorded if the database refuses one of these numbers.
-- Either way the client is answered exactly when the response has the shape that the schemas declare:
-- texts for the id and the contents, the assistant's role, the object's name, and whole numbers of
-- tokens.
pub answer-IsShaped :
    (int_field : Json → Result ℤ) (bind : Json → Result (Option ℕ)) (fallback_id : String) (now : ℕ)
    (j : Job) (key : ApiKey) (client : Client) (table : List UsageRecord)
    (r : ChatCompletionResponse)
    → KeepsUsage bind table
        (answer int_field bind fallback_id now j key client table (answered (ok r))).0
        r.usage
      × (((a : ApiResponse) × ((answer int_field bind fallback_id now j key client table
                (answered (ok r))).1
              ≡ ok a))
          ↔ IsShaped int_field fallback_id now r)
unfolding answer
answer-IsShaped int_field bind fallback_id now j key client table r =
    let (kept, replied) =
      answer-EndsAs int_field bind fallback_id now j key client table (answered (ok r)) tt in
    (kept, rw replied (api_response_iff int_field fallback_id now (model_of j) r))
