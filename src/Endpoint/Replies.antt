-- ===== src/Endpoint/Replies.antt =====
-- What `receiver.recv()` finds in a temporary channel, as more results are sent.
use event_manager.Prelude.{
  ℕ, ◌≡◌, refl, ap, ◌∙◌, false, none, some, Option, List, [], ◌∷◌, ◌++◌, arith, contains,
}
use event_manager.Prelude.HashMap
use event_manager.Os.{Os}
use event_manager.Endpoint.{FnMsg, EventManagerChannel, recv, reply_to}
use event_manager.Endpoint.Callers.{one_sender}

-- Looking up in a list with one more entry at its end.
get-append_one :
    {R : Type 0} (replies : List (ℕ × R)) (k : ℕ) (r : R) (j : ℕ)
    → HashMap.get replies j ≡ none
    → HashMap.get (replies ++ (k, r) ∷ []) j ≡ HashMap.get ((k, r) ∷ []) j
unfolding HashMap.get
get-append_one [] k r j missing = refl
get-append_one ((i, s) ∷ replies) k r j missing = ground (arith, get-append_one replies k r j)

get-append_found :
    {R : Type 0} (replies more : List (ℕ × R)) (j : ℕ) (r : R)
    → HashMap.get replies j ≡ some r
    → HashMap.get (replies ++ more) j ≡ some r
unfolding HashMap.get
get-append_found [] more j r found = cc
get-append_found ((i, s) ∷ replies) more j r found =
    ground (arith, get-append_found replies more j r)

pub sender_other :
    (sender : Option ℕ) (rest : List ℕ) (reply : ℕ)
    → contains (one_sender sender ++ rest) reply ≡ false
    → (contains (one_sender sender) reply ≡ false) × (contains rest reply ≡ false)
sender_other none rest reply fresh = (refl, fresh)
sender_other (some k) rest reply fresh = (ground arith, ground arith)

module _ {os : Os} {S R : Type 0} where
  pub recv-reply_to :
      (reply : ℕ) (result : R) (c : EventManagerChannel os S R)
      → recv reply c ≡ none
      → recv reply (reply_to (some reply) result c) ≡ some result
  unfolding recv reply_to HashMap.get
  recv-reply_to reply result c missing =
      ground (arith, get-append_one c.replies reply result reply missing)

  pub recv_other :
      (sender : Option ℕ) (reply : ℕ) (result : R) (c : EventManagerChannel os S R)
      → contains (one_sender sender) reply ≡ false
      → recv reply c ≡ none
      → recv reply (reply_to sender result c) ≡ none
  unfolding recv reply_to HashMap.get
  recv_other none reply result c other missing = missing
  recv_other (some k) reply result c other missing =
      ground (arith, get-append_one c.replies k result reply missing)

  pub recv_found :
      (sender : Option ℕ) (reply : ℕ) (result r : R) (c : EventManagerChannel os S R)
      → recv reply c ≡ some r
      → recv reply (reply_to sender result c) ≡ some r
  unfolding recv reply_to
  recv_found none reply result r c found = found
  recv_found (some k) reply result r c found =
      get-append_found c.replies ((k, result) ∷ []) reply r found

  pub recv_same :
      (c : EventManagerChannel os S R) (messages : List (FnMsg os S R)) (reply : ℕ) (x : Option R)
      {d : EventManagerChannel os S R}
      → d ≡ record c { messages = messages }
      → recv reply c ≡ x
      → recv reply d ≡ x
  unfolding recv
  recv_same c messages reply x same is = ap (λ d. HashMap.get d.replies reply) same ∙ is
