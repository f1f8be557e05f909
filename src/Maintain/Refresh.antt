-- ===== src/Maintain/Refresh.antt =====
-- sharelib/Maintain.cpp: the configuration behind a refresh.
use octopusd.Prelude.{◌≡◌, refl, Option, none, some}
use octopusd.Prelude.Chain.{bind-Ensures, skip-Ensures, some-Ensures, Ensures-of, Ensures-some}
use octopusd.Config.{ComCfg, ConfigMng}
use octopusd.Setup.Ranges.{InRange, read_common-InRange}
use octopusd.Setup.Sites.{init}
use octopusd.Maintain.{Sources, read_sources, refreshed, refresh_common}

refreshed-InRange : (c new : ComCfg) → InRange c → InRange new → InRange (refreshed c new)
unfolding refreshed
refreshed-InRange c new v w =
    let (((((login, f1, f2, f3, f4, f5), q1, q2, q3), db), ip), port, port', recv, send, err) = v in
    let (((((login', f1', f2', f3', f4', f5'), q1', q2', q3'), db'), ip'), p1, p2, r', s', e') =
      w in
    (((((login', f1, f2', f3', f4', f5'), q1', q2', q3), db), ip), port, port', recv, send, err)

init-InRange : (s : Sources) (new : ConfigMng) → read_sources s ≡ some new → InRange new.com_cfg
unfolding read_sources init
init-InRange s new h =
    Ensures-some (λ c. InRange c.com_cfg) (read_sources s) new
      (bind-Ensures (λ c. InRange c.com_cfg) _ _
        (Ensures-of _ (read_common-InRange s.common_file s.fresh.com_cfg))
        (λ cfg v.
          skip-Ensures (λ c. InRange c.com_cfg) _ _
            (λ sites. some-Ensures (λ c. InRange c.com_cfg) v)))
      h

-- Refreshing the common configuration, from whatever the files hold by then, keeps it in range.
refresh_common-InRange :
    (s : Sources) (c : ConfigMng)
    → InRange c.com_cfg
    → InRange (refresh_common (read_sources s) c).com_cfg
unfolding refresh_common
refresh_common-InRange s c v = go (read_sources s) (init-InRange s)
  where
    go :
        (o : Option ConfigMng)
        → ((new : ConfigMng) → o ≡ some new → InRange new.com_cfg)
        → InRange (refresh_common o c).com_cfg
    go none h = v
    go (some new) h = refreshed-InRange c.com_cfg new.com_cfg v (h new refl)
