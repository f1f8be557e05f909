-- ===== src/Receiver/Calls.antt =====
-- sharelib/ProtocolMng.cpp: the calls on the queues by which `processRecv` takes in an order.
use octopusd.Prelude.{
  ℕ, ◌≡◌, ◌⊎◌, inl, inr, refl, sym, ◌∙◌, true, false, not, ◌||◌, List, [], ◌∷◌, ◌++◌, Option, none,
  some, arith, each_way, Bool-cases,
}
use octopusd.Prelude.Bytes.{Bytes}
use octopusd.Prelude.Map.{find, bytes_key}
use octopusd.Config.{SiteInfo}
use octopusd.Queue.{QueueMng}
use octopusd.Queue.Check.{Verdict, check, judge_normal, recving_queue}
use octopusd.Queue.Put.{add_server_info}
use octopusd.Queue.Run.{Call, checks, judges, puts, run, run-append, step}
use octopusd.Text.Flag.{divideup_str}
use octopusd.Receiver.Orders.{
  OrderEnv, FileDelMsg, FileMvCpMsg, OrderMsg, del, mv, cp, FileAction, del_file, mv_file, cp_file,
  Ordered, refuse, is_cancelled, carry_out, order_to_send, del_checked, source_there, moved_from,
  mv_cp_checked, duty_of, order_checked, receive_order,
}

-- The work on the file that a message asks for, and the path that the duty is put with, where the
-- paths that it names are there.
pub data Works (env : OrderEnv) (q : QueueMng) : OrderMsg → FileAction → Bytes → Type 0 where
  deletes : (m : FileDelMsg) (p : Bytes) → env.path ≡ some p → Works env q (del m) (del_file p) p
  moves :
      (m : FileMvCpMsg) (dest from : Bytes)
      → env.path ≡ some dest
      → source_there env q.config (divideup_str m.src_path_file b':') ≡ some from
      → Works env q (mv m) (mv_file from dest) m.src_path_file
  copies :
      (m : FileMvCpMsg) (dest from : Bytes)
      → env.path ≡ some dest
      → source_there env q.config (divideup_str m.src_path_file b':') ≡ some from
      → Works env q (cp m) (cp_file from dest) m.src_path_file

-- A path that a message names is not there.
pub data Refused (env : OrderEnv) (q : QueueMng) : OrderMsg → Type 0 where
  no_path : (m : OrderMsg) → env.path ≡ none → Refused env q m
  no_move :
      (m : FileMvCpMsg)
      → source_there env q.config (divideup_str m.src_path_file b':') ≡ none
      → Refused env q (mv m)
  no_copy :
      (m : FileMvCpMsg)
      → source_there env q.config (divideup_str m.src_path_file b':') ≡ none
      → Refused env q (cp m)

-- The duty does not stand any more when it is looked at, or a later one was found.
abbrev pub Fallen : OrderEnv → ℕ → Verdict → QueueMng → Type 0
Fallen env me v q =
    ((judge_normal me recving_queue (run env.before_judge q)).0 ≡ false) ⊎ (is_cancelled v ≡ true)

-- What an order is for the queues that have checked it in: the work on the file and the calls
-- behind the check. Each case names its conditions, and no two hold at once.
pub data Rest (env : OrderEnv) (me : ℕ) (m : OrderMsg) (v : Verdict) (q : QueueMng)
    : Option FileAction → List Call → Type 0 where
  refused : Refused env q m → Rest env me m v q none []
  given_up :
      (path : Bytes) (a : FileAction)
      → Works env q m a path
      → Fallen env me v q
      → Rest env me m v q none (env.before_judge ++ (judges me recving_queue ∷ []))
  carried_out :
      (path : Bytes) (a : FileAction)
      → Works env q m a path
      → (judge_normal me recving_queue (run env.before_judge q)).0 ≡ true
      → is_cancelled v ≡ false
      → Rest env me m v q (some a) (
          env.before_judge
          ++ (judges me recving_queue
              ∷ (env.before_put
                  ++ (puts env.io me (order_to_send (duty_of m) env.now path) add_server_info 0
                      ∷ []))))

-- The same for what is left of an order.
abbrev RestOf : OrderEnv → ℕ → OrderMsg → Verdict → QueueMng → Ordered → Type 0
RestOf env me m v q o = (cs : List Call) × Rest env me m v q o.action cs × (o.queue ≡ run cs q)

refuse-RestOf :
    (env : OrderEnv) (me : ℕ) (m : OrderMsg) (v : Verdict) (q : QueueMng)
    → Refused env q m
    → RestOf env me m v q (refuse q)
unfolding refuse run
refuse-RestOf env me m v q h = ([], refused h, refl)

falls :
    (env : OrderEnv) (me : ℕ) (v : Verdict) (q : QueueMng)
    → (not (judge_normal me recving_queue (run env.before_judge q)).0 || is_cancelled v) ≡ true
    → Fallen env me v q
falls env me v q e = elim (Bool-cases (is_cancelled v)) [
  | inl late ↦ inr late
  | inr stands ↦ inl (ground arith)
]

carry_out-RestOf :
    (env : OrderEnv) (me : ℕ) (m : OrderMsg) (v : Verdict) (path : Bytes) (a : FileAction)
    (q : QueueMng)
    → Works env q m a path
    → RestOf env me m v q (carry_out env me v (order_to_send (duty_of m) env.now path) a q)
unfolding carry_out run step
carry_out-RestOf env me m v path a q works =
    let judged = judge_normal me recving_queue (run env.before_judge q) in
    each_way (RestOf env me m v q) (not judged.0 || is_cancelled v)
      (λ e. (
        _,
        given_up path a works (falls env me v q e),
        sym (run-append env.before_judge (judges me recving_queue ∷ []) q),
      ))
      (λ e. (
        _,
        carried_out path a works (ground arith) (ground arith),
        sym (run-append env.before_judge _ q ∙ run-append env.before_put _ judged.1),
      ))

moved_from-RestOf :
    (env : OrderEnv) (me : ℕ) (m : OrderMsg) (act : Bytes → Bytes → FileAction) (src dest : Bytes)
    (v : Verdict) (q : QueueMng) (o : Option Bytes)
    → (o ≡ none → Refused env q m)
    → ((from : Bytes) → o ≡ some from → Works env q m (act from dest) src)
    → RestOf env me m v q (moved_from env me (duty_of m) act src dest v q o)
unfolding moved_from
moved_from-RestOf env me m act src dest v q none missing works =
    refuse-RestOf env me m v q (missing refl)
moved_from-RestOf env me m act src dest v q (some from) missing works =
    carry_out-RestOf env me m v src (act from dest) q (works from refl)

mv_cp_checked-RestOf :
    (env : OrderEnv) (me : ℕ) (m : OrderMsg) (act : Bytes → Bytes → FileAction) (src : Bytes)
    (v : Verdict) (q : QueueMng)
    → (source_there env q.config (divideup_str src b':') ≡ none → Refused env q m)
    → ((dest from : Bytes)
        → env.path ≡ some dest
        → source_there env q.config (divideup_str src b':') ≡ some from
        → Works env q m (act from dest) src)
    → RestOf env me m v q (mv_cp_checked env me (duty_of m) act src (v, q))
unfolding mv_cp_checked
mv_cp_checked-RestOf env me m act src v q missing works =
    elim env.path
        as (λ o.
          env.path ≡ o
          → RestOf env me m v q (elim o as (λ _. Ordered) [
            | none ↦ refuse q
            | some dest ↦
                moved_from env me (duty_of m) act src dest v q
                  (source_there env q.config (divideup_str src b':'))
          ])) [
            | none ↦ λ e. refuse-RestOf env me m v q (no_path m e)
            | some dest ↦ λ e.
                moved_from-RestOf env me m act src dest v q _ missing (λ from. works dest from e)
          ]
      refl

del_checked-RestOf :
    (env : OrderEnv) (me : ℕ) (m : FileDelMsg) (v : Verdict) (q : QueueMng)
    → RestOf env me (del m) v q (del_checked env me (duty_of (del m)) (v, q))
unfolding del_checked
del_checked-RestOf env me m v q =
    elim env.path
        as (λ o.
          env.path ≡ o
          → RestOf env me (del m) v q (elim o as (λ _. Ordered) [
            | none ↦ refuse q
            | some p ↦ carry_out env me v (order_to_send (duty_of (del m)) env.now p) (del_file p) q
          ])) [
            | none ↦ λ e. refuse-RestOf env me (del m) v q (no_path (del m) e)
            | some p ↦ λ e. carry_out-RestOf env me (del m) v p (del_file p) q (deletes m p e)
          ]
      refl

order_checked-RestOf :
    (env : OrderEnv) (me : ℕ) (m : OrderMsg) (v : Verdict) (q : QueueMng)
    → RestOf env me m v q (order_checked env me m (v, q))
unfolding order_checked
order_checked-RestOf env me (del m) v q = del_checked-RestOf env me m v q
order_checked-RestOf env me (mv m) v q =
    mv_cp_checked-RestOf env me (mv m) mv_file m.src_path_file v q (no_move m) (moves m)
order_checked-RestOf env me (cp m) v q =
    mv_cp_checked-RestOf env me (cp m) cp_file m.src_path_file v q (no_copy m) (copies m)

-- What the handler of an order is for the queues: for a site that is not there, nothing; else the
-- duty is checked in first.
pub data OrderCalls (env : OrderEnv) (me : ℕ) (m : OrderMsg) (q : QueueMng)
    : Option FileAction → List Call → Type 0 where
  no_site : find (duty_of m).site_name q.config.map_site ≡ none → OrderCalls env me m q none []
  checked_first :
      (site : SiteInfo) (a : Option FileAction) (cs : List Call)
      → find (duty_of m).site_name q.config.map_site ≡ some site
      → Rest env me m
          (check me (duty_of m) (run env.before_check q)).0
          (check me (duty_of m) (run env.before_check q)).1
          a
          cs
      → OrderCalls env me m q a (env.before_check ++ (checks me (duty_of m) ∷ cs))

-- The same for what the handler leaves.
abbrev CallsOf : OrderEnv → ℕ → OrderMsg → QueueMng → Ordered → Type 0
CallsOf env me m q o = (cs : List Call) × OrderCalls env me m q o.action cs × (o.queue ≡ run cs q)

checked-CallsOf :
    (env : OrderEnv) (me : ℕ) (m : OrderMsg) (q : QueueMng) (o : Ordered) (site : SiteInfo)
    → find (duty_of m).site_name q.config.map_site ≡ some site
    → RestOf env me m
        (check me (duty_of m) (run env.before_check q)).0
        (check me (duty_of m) (run env.before_check q)).1
        o
    → CallsOf env me m q o
unfolding run step
checked-CallsOf env me m q o site found (cs, rest, e) = (
  _,
  checked_first site o.action cs found rest,
  e ∙ sym (run-append env.before_check (checks me (duty_of m) ∷ cs) q),
)

-- Taking in a deletion, a move or a copy is, for the queues, a sequence of calls with those of the
-- other threads between them: none exactly where the site is not there; else the duty is checked
-- in, and exactly where the paths that the message names are there it is looked at. The work that
-- the message asks for is done exactly where the duty then still stands and no later one was found,
-- and exactly then one duty for the same file is put for each server of the site.
pub receive_order-OrderCalls :
    (env : OrderEnv) (me : ℕ) (m : OrderMsg) (q : QueueMng)
    → (cs : List Call) × OrderCalls env me m q (receive_order env me m q).action cs
      × ((receive_order env me m q).queue ≡ run cs q)
unfolding receive_order refuse run
receive_order-OrderCalls env me m q =
    let checked = check me (duty_of m) (run env.before_check q) in
    let found = find (duty_of m).site_name q.config.map_site in
    elim found
        as (λ o.
          found ≡ o
          → CallsOf env me m q (elim o as (λ _. Ordered) [
            | none ↦ refuse q
            | some site ↦ order_checked env me m checked
          ])) [
            | none ↦ λ e. ([], no_site e, refl)
            | some site ↦ λ e.
                checked-CallsOf env me m q (order_checked env me m checked) site e
                  (order_checked-RestOf env me m checked.0 checked.1)
          ]
      refl
