-- ===== src/MonitorQueue/Pool/Calls.antt =====
-- What the main threads of lab5/5.1 and of lab5/5.2 ask of the system when they close a thread.
use osisp.Prelude.{
  ℕ, ◌≡◌, refl, ap, ap₂, sym, ◌∙◌, List, [], ◌∷◌, ◌++◌, append_assoc, Bool, true, false,
  if◌then◌else◌, map,
}
use osisp.ThreadQueue.Pool.{
  Effect as Asked, cancel as cancelled, join as joined_by, sync_destroy as destroyed,
  free_message as freed,
}
use osisp.ThreadQueue.Pool.Laws.{joined, joined-append}
use osisp.MonitorQueue.Pool.{Effect, cancel, join, broadcast, sync_destroy, free_message}

-- What lab5/5.2 does for what lab5/5.1 does: a cancelled thread is not joined, and a broadcast comes
-- before the other joins.
unfoldable pub translated : List Asked → List Effect
translated [] = []
translated (cancelled i ∷ []) = cancel i ∷ []
translated (cancelled i ∷ _ ∷ es) = cancel i ∷ translated es
translated (joined_by i ∷ es) = broadcast ∷ join i ∷ translated es
translated (destroyed ∷ es) = sync_destroy ∷ translated es
translated (freed m ∷ es) = free_message m ∷ translated es

-- Every cancel is followed by a join.
abbrev pub closing : Bool → ℕ → List Asked
closing starved ind = if starved then cancelled ind ∷ joined_by ind ∷ [] else joined_by ind ∷ []

-- The threads that are ended, in order: joined, or cancelled.
abbrev pub ended : List Effect → List ℕ
ended [] = []
ended (cancel i ∷ es) = i ∷ ended es
ended (join i ∷ es) = i ∷ ended es
ended (_ ∷ es) = ended es

ended-append : (es fs : List Effect) → ended (es ++ fs) ≡ ended es ++ ended fs
ended-append [] fs = refl
ended-append (cancel i ∷ es) fs = ap (◌∷◌ i) (ended-append es fs)
ended-append (join i ∷ es) fs = ap (◌∷◌ i) (ended-append es fs)
ended-append (broadcast ∷ es) fs = ended-append es fs
ended-append (sync_destroy ∷ es) fs = ended-append es fs
ended-append (free_message m ∷ es) fs = ended-append es fs

-- The calls of the two programs: translated whatever follows, and ending the same threads.
pub record Matches (calls : List Effect) (calls' : List Asked) : Type 0 where
  pub same : (es : List Asked) → calls ++ translated es ≡ translated (calls' ++ es)
  pub ends : ended calls ≡ joined calls'

pub append-Matches :
    (a b : List Effect) (a' b' : List Asked)
    → Matches a a'
    → Matches b b'
    → Matches (a ++ b) (a' ++ b')
append-Matches a b a' b' h g = record {
  same = λ es.
      append_assoc a b (translated es)
      ∙ ap (λ x. a ++ x) (g.same es)
      ∙ h.same (b' ++ es)
      ∙ ap translated (sym (append_assoc a' b' es));
  ends = ended-append a b ∙ ap₂ ◌++◌ h.ends g.ends ∙ sym (joined-append a' b');
}

pub none-Matches : Matches [] []
none-Matches = record { same = λ es. refl; ends = refl }

abbrev pub waking : Bool → ℕ → List Effect
waking starved ind = if starved then cancel ind ∷ [] else broadcast ∷ join ind ∷ []

pub calls-Matches : (starved : Bool) (ind : ℕ) → Matches (waking starved ind) (closing starved ind)
unfolding translated
calls-Matches true ind = record { same = λ es. refl; ends = refl }
calls-Matches false ind = record { same = λ es. refl; ends = refl }

-- The end of `cleanup_and_exit`.
free-Matches : (ms : List ℕ) → Matches (map (λ m. free_message m) ms) (map (λ m. freed m) ms)
unfolding translated
free-Matches [] = none-Matches
free-Matches (m ∷ ms) = record {
  same = λ es. ap (λ x. free_message m ∷ x) ((free-Matches ms).same es);
  ends = (free-Matches ms).ends;
}

pub freeing-Matches :
    (ms : List ℕ)
    → Matches (sync_destroy ∷ map (λ m. free_message m) ms) (destroyed ∷ map (λ m. freed m) ms)
unfolding translated
freeing-Matches ms = record {
  same = λ es. ap (λ x. sync_destroy ∷ x) ((free-Matches ms).same es);
  ends = (free-Matches ms).ends;
}
