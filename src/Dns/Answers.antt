-- ===== src/Dns/Answers.antt =====
-- `forward` and `handle` of internal/dns/server.go: what is written in reply to a query.
use auto_pxe.Prelude.{
  ℕ, ◌≡◌, Bool, Option, none, some, List, [], ◌∷◌, ◌++◌, Text, All, if◌then◌else◌, to_lower,
  is_empty, false,
}
use auto_pxe.Lease.{Allocator}
use auto_pxe.State.{Tracker}
use auto_pxe.Dns.{
  Server, Question, Message, refused, name_error, server_failure, forwarded, Reply, ask,
  upstreams_for, local_answer,
}

-- The reply comes from the first upstream server that answers, and carries the query's id.
pub record IsFirst (exchange : Bool → Text → Option (Option Reply)) (tcp : Bool) (id : ℕ)
    (us : List Text) (r : Reply) : Type 0 where
  pub before : List Text
  pub upstream : Text
  pub after : List Text
  pub answer : Reply
  pub listed : us ≡ before ++ upstream ∷ after
  pub silent : All (λ u. ask exchange tcp u ≡ none) before
  pub answered : ask exchange tcp upstream ≡ some answer
  pub same : r ≡ record answer { id = id }

abbrev pub IsForwarded :
    (Bool → Text → Option (Option Reply)) → Bool → ℕ → List Text → Option Reply → Type 0
IsForwarded exchange tcp id us none = All (λ u. ask exchange tcp u ≡ none) us
IsForwarded exchange tcp id us (some r) = IsFirst exchange tcp id us r

module _ (reverse_addr : Text → Option Text) (exchange : Bool → Text → Option (Option Reply))
    (now : ℕ) (tracker : Tracker) (leaser : Allocator) (s : Server) (tcp writes : Bool)
    (id : ℕ) where
  -- What may be written in reply to a query with these questions.
  pub data IsReply : List Question → List Message → Type 0 where
    no_question : IsReply [] (refused ∷ [])
    by_itself :
        (q : Question) (qs : List Question) (m : Message)
        → local_answer reverse_addr exchange now tracker leaser s q ≡ some m
        → IsReply (q ∷ qs) (m ∷ [])
    no_upstream :
        (q : Question) (qs : List Question)
        → local_answer reverse_addr exchange now tracker leaser s q ≡ none
        → upstreams_for (to_lower q.name) s ≡ []
        → IsReply (q ∷ qs) (name_error ∷ [])
    no_answer :
        (q : Question) (qs : List Question)
        → local_answer reverse_addr exchange now tracker leaser s q ≡ none
        → is_empty (upstreams_for (to_lower q.name) s) ≡ false
        → All (λ u. ask exchange tcp u ≡ none) (upstreams_for (to_lower q.name) s)
        → IsReply (q ∷ qs) (server_failure ∷ [])
    by_upstream :
        (q : Question) (qs : List Question) (r : Reply)
        → local_answer reverse_addr exchange now tracker leaser s q ≡ none
        → IsFirst exchange tcp id (upstreams_for (to_lower q.name) s) r
        → IsReply (q ∷ qs) (if writes then forwarded r ∷ [] else forwarded r ∷ server_failure ∷ [])
