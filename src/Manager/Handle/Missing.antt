-- ===== src/Manager/Handle/Missing.antt =====
-- sharelib/ProtocolMng.cpp: the messages of which `processVersion2` reads a part that is not there.
use mathlib.Core.Logic.{◌↔◌}
use octopusd.Prelude.{
  ℕ, ◌≡◌, ◌≤◌, ◌⊎◌, inl, inr, refl, Bool, true, false, List, [], ◌∷◌, Option, none, some, arith,
  ◌==◌, length, each_way,
}
use octopusd.Prelude.Bytes.{Bytes}
use octopusd.Prelude.Int.{pos, int_eq, int_eq_iff, atoi, as_int}
use octopusd.Manager.{Manager, HandlerEnv}
use octopusd.Manager.Clone.{clone_site_cfg}
use octopusd.Manager.Update.{CfgPart, common_part, site_part, update_mobile}
use octopusd.Manager.Handle.{
  Handled, out_of_range, updated, clone_answer, cloned, mobile_written, mobile_updated, show_stat,
  show_any, handle_common_cfg, handle_site_cfg, handle_mobile_cfg, handle_log_trace, handle_show_q,
  unknown_type, handle, process_version2, is_type, protocol_search_tree, protocol_log_trace,
  protocol_show_q_info, protocol_common_cfg, protocol_site_cfg, protocol_mobile_cfg,
}

-- The parts behind the first that a message needs and does not have: the content of a change, the
-- two sites of a clone, the mark behind a list of mobile numbers that was written, and the day or
-- the path of a log.
pub data Lacks (env : HandlerEnv) (type : ℕ) (first : Bytes) (rest : List Bytes) (m : Manager)
    : Type 0 where
  no_content :
      (type ≡ protocol_common_cfg) ⊎ ((type ≡ protocol_site_cfg) ⊎ (type ≡ protocol_mobile_cfg))
      → as_int (atoi first) ≡ pos 1
      → rest ≡ []
      → Lacks env type first rest m
  no_site :
      type ≡ protocol_site_cfg
      → as_int (atoi first) ≡ pos 2
      → length rest ≤ 1
      → Lacks env type first rest m
  no_mark :
      (content : Bytes)
      → type ≡ protocol_mobile_cfg
      → as_int (atoi first) ≡ pos 1
      → rest ≡ content ∷ []
      → (update_mobile env content m).0 ≡ true
      → Lacks env type first rest m
  no_name :
      type ≡ protocol_log_trace
      → (as_int (atoi first) ≡ pos 3) ⊎ (as_int (atoi first) ≡ pos 4)
      → rest ≡ []
      → Lacks env type first rest m

-- Where a part is missed, something holds.
abbrev Misses : Type 0 → Handled → Type 0
Misses P h = h ≡ out_of_range → P

is_type_lem : (first : Bytes) (n : ℕ) → is_type first n ≡ true → as_int (atoi first) ≡ pos n
unfolding is_type
is_type_lem first n h = (int_eq_iff (as_int (atoi first)) (pos n)).0 h

type_lem : (t n : ℕ) → (t == n) ≡ true → t ≡ n
type_lem t n h = ground arith

module _ (env : HandlerEnv) (P : Type 0) (m : Manager) where
  updated-Misses :
      (p : CfgPart) (rest : List Bytes) → (rest ≡ [] → P) → Misses P (updated env p rest m)
  unfolding updated
  updated-Misses p [] h e = h refl
  updated-Misses p (c ∷ rest) h e = cc

  clone_answer-Misses :
      (by : Bytes) (o : Option (Bool × Manager)) → Misses P (clone_answer env by o)
  unfolding clone_answer
  clone_answer-Misses by none e = cc
  clone_answer-Misses by (some (false, m')) e = cc
  clone_answer-Misses by (some (true, m')) e = cc

  cloned-Misses : (rest : List Bytes) → (length rest ≤ 1 → P) → Misses P (cloned env rest m)
  unfolding cloned
  cloned-Misses [] h e = h (ground arith)
  cloned-Misses (by ∷ []) h e = h (ground arith)
  cloned-Misses (by ∷ add ∷ rest) h e = clone_answer-Misses by (clone_site_cfg env by add m) e

  mobile_written-Misses :
      (rest : List Bytes) (r : Bool × Manager)
      → (rest ≡ [] → r.0 ≡ true → P)
      → Misses P (mobile_written env rest r)
  unfolding mobile_written
  mobile_written-Misses [] (false, m') h e = cc
  mobile_written-Misses [] (true, m') h e = h refl refl
  mobile_written-Misses (flag ∷ rest) (false, m') h e = cc
  mobile_written-Misses (flag ∷ rest) (true, m') h e = cc

  mobile_updated-Misses :
      (rest : List Bytes)
      → (rest ≡ [] → P)
      → ((content : Bytes) → rest ≡ content ∷ [] → (update_mobile env content m).0 ≡ true → P)
      → Misses P (mobile_updated env rest m)
  unfolding mobile_updated
  mobile_updated-Misses [] h k e = h refl
  mobile_updated-Misses (c ∷ []) h k e =
      mobile_written-Misses [] (update_mobile env c m) (λ _ done. k c refl done) e
  mobile_updated-Misses (c ∷ d ∷ rest) h k e =
      mobile_written-Misses (d ∷ rest) (update_mobile env c m) (λ none_left _. cc) e

  show_stat-Misses : (rest : List Bytes) → (rest ≡ [] → P) → Misses P (show_stat env rest m)
  unfolding show_stat
  show_stat-Misses [] h e = h refl
  show_stat-Misses (c ∷ rest) h e = cc

  show_any-Misses : (rest : List Bytes) → (rest ≡ [] → P) → Misses P (show_any env rest m)
  unfolding show_any
  show_any-Misses [] h e = h refl
  show_any-Misses (c ∷ rest) h e = cc

module _ (env : HandlerEnv) (type : ℕ) (first : Bytes) (rest : List Bytes) (m : Manager) where
  common_cfg-Misses :
      type ≡ protocol_common_cfg
      → Misses (Lacks env type first rest m) (handle_common_cfg env first rest m)
  unfolding handle_common_cfg
  common_cfg-Misses is =
      let P = Lacks env type first rest m in
      each_way (Misses P) (is_type first 0) (λ _ e. cc)
        (λ _.
          each_way (Misses P) (is_type first 1)
            (λ asks.
              updated-Misses env P m common_part rest
                (λ ends. no_content (inl is) (is_type_lem first 1 asks) ends))
            (λ _ e. cc))

  site_cfg-Misses :
      type ≡ protocol_site_cfg
      → Misses (Lacks env type first rest m) (handle_site_cfg env first rest m)
  unfolding handle_site_cfg
  site_cfg-Misses is =
      let P = Lacks env type first rest m in
      each_way (Misses P) (is_type first 0) (λ _ e. cc)
        (λ _.
          each_way (Misses P) (is_type first 1)
            (λ asks.
              updated-Misses env P m site_part rest
                (λ ends. no_content (inr (inl is)) (is_type_lem first 1 asks) ends))
            (λ _.
              each_way (Misses P) (is_type first 2)
                (λ asks. cloned-Misses env P m rest (no_site is (is_type_lem first 2 asks)))
                (λ _ e. cc)))

  mobile_cfg-Misses :
      type ≡ protocol_mobile_cfg
      → Misses (Lacks env type first rest m) (handle_mobile_cfg env first rest m)
  unfolding handle_mobile_cfg
  mobile_cfg-Misses is =
      let P = Lacks env type first rest m in
      each_way (Misses P) (is_type first 0) (λ _ e. cc)
        (λ _.
          each_way (Misses P) (is_type first 1)
            (λ asks.
              mobile_updated-Misses env P m rest
                (no_content (inr (inr is)) (is_type_lem first 1 asks))
                (λ content. no_mark content is (is_type_lem first 1 asks)))
            (λ _ e. cc))

  log_trace-Misses :
      type ≡ protocol_log_trace
      → Misses (Lacks env type first rest m) (handle_log_trace env first rest m)
  unfolding handle_log_trace
  log_trace-Misses is =
      let P = Lacks env type first rest m in
      each_way (Misses P) (is_type first 0) (λ _ e. cc)
        (λ _.
          each_way (Misses P) (is_type first 1) (λ _ e. cc)
            (λ _.
              each_way (Misses P) (is_type first 2) (λ _ e. cc)
                (λ _.
                  each_way (Misses P) (is_type first 3)
                    (λ asks.
                      show_stat-Misses env P m rest (no_name is (inl (is_type_lem first 3 asks))))
                    (λ _.
                      each_way (Misses P) (is_type first 4)
                        (λ asks.
                          show_any-Misses env P m rest
                            (no_name is (inr (is_type_lem first 4 asks))))
                        (λ _ e. cc)))))

  show_q-Misses : Misses (Lacks env type first rest m) (handle_show_q env first m)
  unfolding handle_show_q
  show_q-Misses =
      let P = Lacks env type first rest m in
      each_way (Misses P) (is_type first 0) (λ _ e. cc)
        (λ _.
          each_way (Misses P) (is_type first 1) (λ _ e. cc)
            (λ _. each_way (Misses P) (is_type first 2) (λ _ e. cc) (λ _ e. cc)))

  handle-Misses : Misses (Lacks env type first rest m) (handle env type first rest m)
  unfolding handle unknown_type
  handle-Misses =
      let P = Lacks env type first rest m in
      each_way (Misses P) (type == protocol_search_tree) (λ _ e. cc)
        (λ _.
          each_way (Misses P) (type == protocol_common_cfg)
            (λ is. common_cfg-Misses (type_lem type _ is))
            (λ _.
              each_way (Misses P) (type == protocol_site_cfg)
                (λ is. site_cfg-Misses (type_lem type _ is))
                (λ _.
                  each_way (Misses P) (type == protocol_mobile_cfg)
                    (λ is. mobile_cfg-Misses (type_lem type _ is))
                    (λ _.
                      each_way (Misses P) (type == protocol_log_trace)
                        (λ is. log_trace-Misses (type_lem type _ is))
                        (λ _.
                          each_way (Misses P) (type == protocol_show_q_info) (λ _. show_q-Misses)
                            (λ _ e. cc))))))

-- The other way round.
mark_missed :
    (env : HandlerEnv) (r : Bool × Manager) → r.0 ≡ true → mobile_written env [] r ≡ out_of_range
unfolding mobile_written
mark_missed env (false, m) h = cc
mark_missed env (true, m) h = refl

site_missed :
    (env : HandlerEnv) (rest : List Bytes) (m : Manager)
    → length rest ≤ 1
    → cloned env rest m ≡ out_of_range
unfolding cloned
site_missed env [] m h = refl
site_missed env (by ∷ []) m h = refl
site_missed env (by ∷ add ∷ rest) m h = absurd (omega arith)

Lacks-missed :
    (env : HandlerEnv) (type : ℕ) (first : Bytes) (rest : List Bytes) (m : Manager)
    → Lacks env type first rest m
    → handle env type first rest m ≡ out_of_range
unfolding handle handle_common_cfg handle_site_cfg handle_mobile_cfg handle_log_trace updated
    mobile_updated show_stat show_any is_type int_eq
Lacks-missed env type first rest m (no_content (inl is) asks ends) = rw (is, asks, ends) refl
Lacks-missed env type first rest m (no_content (inr (inl is)) asks ends) = rw (is, asks, ends) refl
Lacks-missed env type first rest m (no_content (inr (inr is)) asks ends) = rw (is, asks, ends) refl
Lacks-missed env type first rest m (no_site is asks short) =
    rw (is, asks) (site_missed env rest m short)
Lacks-missed env type first rest m (no_mark content is asks ends done) =
    rw (is, asks, ends) (mark_missed env (update_mobile env content m) done)
Lacks-missed env type first rest m (no_name is (inl asks) ends) = rw (is, asks, ends) refl
Lacks-missed env type first rest m (no_name is (inr asks) ends) = rw (is, asks, ends) refl

-- A message with at least one part makes the handler read a part that is not there exactly where it
-- asks for a new common configuration, sites or mobile numbers without their content, for a clone
-- without both of its sites, for mobile numbers that are written without the mark behind them, or
-- for the queue's report or any file without its day or path.
pub process_version2-Lacks :
    (env : HandlerEnv) (type : ℕ) (first : Bytes) (rest : List Bytes) (m : Manager)
    → (process_version2 env type (first ∷ rest) m ≡ out_of_range) ↔ Lacks env type first rest m
unfolding process_version2
process_version2-Lacks env type first rest m =
    (handle-Misses env type first rest m, Lacks-missed env type first rest m)
