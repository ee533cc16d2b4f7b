-- ===== src/InferenceCache/Examples.antt =====
-- Caches over a backend that answers with the count of its calls.
use bonsai_agent.Prelude.{
  ℕ, ◌+◌, ◌*◌, ◌≡◌, refl, String, none, List, [], ◌∷◌, inl, len, show, arith,
}
use bonsai_agent.Conversation.{Message, user, Attachment, image}
use bonsai_agent.InferenceCache.{
  Piece, text, bits, InferenceCache, new, LlmBackend, Hashing, find, set, delete, get, least_used,
  evict_least_used, put, compute_key, compute_prompt_hash, compute_prompt_hash_with_params,
  GenerateResult, cached_result, answer, generate,
}
use bonsai_agent.InferenceCache.Answers.{
  Request, plain, tuned, ask, ReplyHolds, serve, serve_all, key_of, RepliesHold, serve_all-Hold,
  cache_after,
}
use bonsai_agent.InferenceCache.Size.{Within, cache_after-Within}
use bonsai_agent.InferenceCache.Repeated.{serve_twice}

abbrev weigh : List Piece → ℕ
weigh [] = 7
weigh (text s ∷ ps) = len s + 31 * weigh ps
weigh (bits n ∷ ps) = n + 31 * weigh ps

abbrev hashing : Hashing
hashing = record { finish = weigh; hex = show; iteration_order = λ es. es }

abbrev counting : LlmBackend ℕ ℕ
counting = record {
  model_id = "m";
  generate = λ messages tools n. (
    (
      inl (record {
        text = show n;
        usage = record { prompt_tokens = 1; completion_tokens = 1; duration = 1 };
        model_id = "m";
      }),
      show n ∷ [],
    ),
    n + 1,
  );
  generate_with_params = λ messages tools params n. (
    (
      inl (record {
        text = show n;
        usage = record { prompt_tokens = 1; completion_tokens = 1; duration = 1 };
        model_id = "m";
      }),
      show n ∷ [],
    ),
    n + 1,
  );
}

abbrev asking : List Attachment → List Message
asking attachments =
    record {
      role = user;
      content = "what is this?";
      attachments = attachments;
      tool_call_id = none;
    }
    ∷ []

-- An image is no part of the key: with another image, the reply is the one to the first.
other_image :
    serve_all hashing counting
      (plain (asking (image (1 ∷ []) ∷ [])) [] ∷ plain (asking (image (2 ∷ []) ∷ [])) [] ∷ [])
      (new 10)
      0
    ≡ ((
      key_of hashing counting (plain (asking []) []),
      (
        inl (record {
          text = "0";
          usage = record { prompt_tokens = 1; completion_tokens = 1; duration = 1 };
          model_id = "m";
        }),
        "0" ∷ [],
      ),
    )
        ∷ (
          key_of hashing counting (plain (asking []) []),
          (
            inl (record {
              text = "0";
              usage = record { prompt_tokens = 0; completion_tokens = 0; duration = 0 };
              model_id = "m";
            }),
            "0" ∷ [],
          ),
        )
        ∷ [])
unfolding find set delete get least_used evict_least_used put compute_key compute_prompt_hash answer
    generate serve serve_all show
other_image = refl

abbrev question : Request ℕ
question = plain (asking []) []

abbrev first_reply : GenerateResult
first_reply = record {
  text = "0";
  usage = record { prompt_tokens = 1; completion_tokens = 1; duration = 1 };
  model_id = "m";
}

abbrev filled : InferenceCache
filled = record {
  cache = (key_of hashing counting question, record { response = "0"; access_count = 0 }) ∷ [];
  max_entries = 10;
}

serve_twice_example :
    ((serve hashing counting question filled 1).0
      ≡ (inl (cached_result hashing counting "0"), "0" ∷ []))
    × ((serve hashing counting question filled 1).2 ≡ 1)
unfolding find set get put compute_key compute_prompt_hash answer generate serve show
serve_twice_example =
    serve_twice hashing counting question (new 10) filled 0 1 first_reply ("0" ∷ []) refl

-- A backend that answers with the hash of what it is asked.
abbrev echoed : String → GenerateResult
echoed s = record {
  text = s;
  usage = record { prompt_tokens = 1; completion_tokens = 1; duration = 1 };
  model_id = "m";
}

abbrev echo : LlmBackend ℕ ℕ
echo = record {
  model_id = "m";
  generate = λ messages tools n.
      ((inl (echoed (compute_prompt_hash weigh show messages tools)), []), n + 1);
  generate_with_params = λ messages tools params n. (
    (inl (echoed (compute_prompt_hash_with_params weigh show messages tools params)), []),
    n + 1,
  );
}

-- A text whose key is the number.
abbrev IsKeyOf : ℕ → String → Type 0
IsKeyOf key s = key ≡ compute_key weigh show "m" s

echo_holds :
    (q : Request ℕ) (v : ℕ) → ReplyHolds IsKeyOf (key_of hashing echo q) (ask hashing echo q v).0
echo_holds (plain messages tools) v = refl
echo_holds (tuned messages tools params) v = refl

serve_all-Hold_example :
    RepliesHold IsKeyOf (serve_all hashing echo (question ∷ question ∷ []) (new 1) 0)
serve_all-Hold_example =
    serve_all-Hold IsKeyOf hashing echo (question ∷ question ∷ []) (new 1) 0 echo_holds tt

cache_after-Within_example :
    Within (cache_after hashing counting (question ∷ plain [] [] ∷ question ∷ []) (new 0) 0)
cache_after-Within_example =
    cache_after-Within hashing (λ es key. refl) counting (question ∷ plain [] [] ∷ question ∷ [])
      (new 0) 0 (omega arith)

-- The entry that was read least often goes, and of several the first.
evicted :
    (put
      (λ es. es)
      3
      "c"
      (get 1 (record {
        cache =
            (1, record { response = "a"; access_count = 0 })
            ∷ (2, record { response = "b"; access_count = 0 })
            ∷ [];
        max_entries = 2;
      })).1).cache
    ≡ ((1, record { response = "a"; access_count = 1 })
        ∷ (3, record { response = "c"; access_count = 0 })
        ∷ [])
unfolding find set delete get least_used evict_least_used put
evicted = refl
