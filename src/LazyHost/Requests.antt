-- ===== src/LazyHost/Requests.antt =====
-- What each computer is asked for.
use totem_zmk_config.Prelude.{
  ◌≡◌, refl, ap, ◌∙◌, arith, Bool, ◌&&◌, not, List, [], ◌∷◌, ◌++◌, leb, if◌then◌else◌, ℤ, is_neg,
  int_eq, map, sym,
}
use totem_zmk_config.Host.{Conn, security_l2}
use totem_zmk_config.LazyHost.{
  Request, active_params, lazy_params, apply_params, update_one_host, lazy_host_refresh,
}

-- An encrypted, established link to a computer with a known profile.
abbrev pub is_host : Conn → Bool
is_host c =
    c.info_ok && c.peripheral && c.connected && not (is_neg c.idx) && leb security_l2 c.security

abbrev pub hosts : List Conn → List Conn
hosts [] = []
hosts (c ∷ cs) = if is_host c then c ∷ hosts cs else hosts cs

-- What it is to be asked for.
abbrev pub wanted : ℤ → Conn → Request
wanted active c = record {
  conn = c;
  params = if int_eq c.idx active then active_params else lazy_params;
}

update_lem :
    (active : ℤ) (c : Conn) (rs : List Request)
    → update_one_host active c ++ rs ≡ (if is_host c then wanted active c ∷ rs else rs)
unfolding update_one_host apply_params
update_lem active c rs = ground arith

-- The hosts, one by one.
map-hosts :
    (active : ℤ) (c : Conn) (cs : List Conn)
    → map (wanted active) (hosts (c ∷ cs)) ≡ (
        if is_host c
        then wanted active c ∷ map (wanted active) (hosts cs)
        else map (wanted active) (hosts cs))
map-hosts active c cs = ground arith

-- A refresh asks every computer with an encrypted link and a known profile once, for the quick
-- parameters if it is the selected one and for the slow ones otherwise, and asks nobody else: not
-- the other half, nor a link that is not established, encrypted or identified.
pub refresh-hosts :
    (active : ℤ) (cs : List Conn) → lazy_host_refresh active cs ≡ map (wanted active) (hosts cs)
unfolding lazy_host_refresh
refresh-hosts active [] = refl
refresh-hosts active (c ∷ cs) =
    ap (λ rs. update_one_host active c ++ rs) (refresh-hosts active cs)
    ∙ update_lem active c (map (wanted active) (hosts cs))
    ∙ sym (map-hosts active c cs)
