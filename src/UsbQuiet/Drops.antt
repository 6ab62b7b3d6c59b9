-- ===== src/UsbQuiet/Drops.antt =====
-- Which links the cable drops.
use totem_zmk_config.Prelude.{
  ℕ, ◌≡◌, refl, arith, Bool, true, false, ◌&&◌, List, [], ◌∷◌, ◌++◌, ap, ◌∙◌, if◌then◌else◌,
  append-nil,
}
use totem_zmk_config.Host.{Conn}
use totem_zmk_config.UsbQuiet.{
  Action, disconnect, log, drop_host_conn, drop_host_conns, usb_host_quiet_work_handler,
}

-- The dropped links, in order.
abbrev pub dropped : List Action → List Conn
dropped [] = []
dropped (disconnect c reason ∷ acts) = c ∷ dropped acts
dropped (log e ∷ acts) = dropped acts

dropped-append : (xs ys : List Action) → dropped (xs ++ ys) ≡ dropped xs ++ dropped ys
dropped-append [] ys = refl
dropped-append (disconnect c reason ∷ xs) ys = ap (λ l. c ∷ l) (dropped-append xs ys)
dropped-append (log e ∷ xs) ys = dropped-append xs ys

-- The links to computers among the connections.
abbrev pub computers : List Conn → List Conn
computers [] = []
computers (c ∷ cs) = if c.info_ok && c.peripheral then c ∷ computers cs else computers cs

conns-dropped : (cs : List Conn) → dropped (drop_host_conns cs) ≡ computers cs
unfolding drop_host_conns drop_host_conn
conns-dropped [] = refl
conns-dropped (c ∷ cs) =
    dropped-append (drop_host_conn c) (drop_host_conns cs)
    ∙ ap (λ l. dropped (drop_host_conn c) ++ l) (conns-dropped cs)
    ∙ one-dropped c (computers cs)
  where
    one-dropped :
        (c : Conn) (l : List Conn)
        → dropped (drop_host_conn c) ++ l ≡ (if c.info_ok && c.peripheral then c ∷ l else l)
    one-dropped c l = ground arith

-- On a cable the work drops the links to computers, all of them and no other, so that the link to the
-- other half stays; without a cable it drops none.
pub work-dropped :
    (now : ℕ) (powered : Bool) (cs : List Conn)
    → dropped (usb_host_quiet_work_handler now powered cs) ≡ (if powered then computers cs else [])
unfolding usb_host_quiet_work_handler
work-dropped now true cs =
    dropped-append (drop_host_conns cs) (log _ ∷ [])
    ∙ append-nil (dropped (drop_host_conns cs))
    ∙ conns-dropped cs
work-dropped now false cs = refl
