-- ===== src/Watchdog/Hang.antt =====
-- A hang is reported under the name of the context that stopped.
use totem_zmk_config.Prelude.{
  ℕ, ◌≡◌, refl, Bool, false, Option, some, ℤ, int8, int_eq, int_eq_refl, ap, ◌∙◌, List, [], ◌∷◌,
}
use totem_zmk_config.Fault.{
  Body, Fault, Thread, kind_task_wdt, totem_fault_report_and_clear, copy_label,
}
use totem_zmk_config.Fault.Once.{reset, ReportedOnce, note-ReportedOnce, label-note}
use totem_zmk_config.Watchdog.{
  Channels, Context, sched, sysworkq, timer, name_of, chan_label, totem_task_wdt_cb, Action, feed,
  wdt_feeder, wdt_workq_handler, wdt_timer_handler,
}

-- What a context runs to feed the watchdog, and the channels that some calls feed.
abbrev pub turn : Context → Channels → List Action
turn sched s = wdt_feeder s
turn sysworkq s = wdt_workq_handler s
turn timer s = wdt_timer_handler s

abbrev pub feeds : List Action → List ℤ
feeds [] = []
feeds (feed channel ∷ acts) = channel ∷ feeds acts
feeds (_ ∷ acts) = feeds acts

-- The channel of a context.
abbrev pub channel_of : Context → Channels → ℤ
channel_of sched s = s.chan_sched
channel_of sysworkq s = s.chan_workq
channel_of timer s = s.chan_timer

pub record IsDistinct (s : Channels) : Type 0 where
  pub sched_workq : int_eq s.chan_workq s.chan_sched ≡ false
  pub sched_timer : int_eq s.chan_timer s.chan_sched ≡ false
  pub workq_timer : int_eq s.chan_timer s.chan_workq ≡ false

label_of_channel :
    (c : Context) (s : Channels) → IsDistinct s → chan_label (channel_of c s) s ≡ name_of c
unfolding chan_label
label_of_channel sched s v = rw (int_eq_refl s.chan_sched) refl
label_of_channel sysworkq s v = rw (v.sched_workq, int_eq_refl s.chan_workq) refl
label_of_channel timer s v = rw (v.sched_timer, v.workq_timer, int_eq_refl s.chan_timer) refl

-- The names are short enough for the record.
copy_label-name_of : (c : Context) → copy_label (name_of c) ≡ name_of c
copy_label-name_of sched = refl
copy_label-name_of sysworkq = refl
copy_label-name_of timer = refl

feeds-turn : (c : Context) (s : Channels) → feeds (turn c s) ≡ channel_of c s ∷ []
unfolding wdt_feeder wdt_workq_handler wdt_timer_handler
feeds-turn sched s = refl
feeds-turn sysworkq s = refl
feeds-turn timer s = refl

-- Each of the three contexts feeds exactly one channel. When the watchdog finds that channel unfed,
-- and the three channels have different numbers, the next boot reports a hang, with the number of
-- the channel and the name of the context that feeds it, on every image and whatever the Studio
-- module hands over; the boot after that, on the same image, reports at most the crash that the
-- module hands over by then.
pub hang-ReportedOnce :
    (fault_crc : Body → ℕ) (studio : Bool) (crash fresh : Option Body) (at now again : ℕ)
    (t : Thread) (c : Context) (s : Channels) (fault : Fault)
    → IsDistinct s
    → let noted = totem_task_wdt_cb fault_crc at t (channel_of c s) s fault in
      (feeds (turn c s) ≡ channel_of c s ∷ [])
      × (noted.fault_rec.body.label ≡ name_of c)
      × (noted.fault_rec.body.kind ≡ kind_task_wdt)
      × (noted.fault_rec.body.channel ≡ int8 (channel_of c s))
      × ReportedOnce fault_crc studio fresh now again noted.fault_rec.body noted.fault_rec
          (totem_fault_report_and_clear fault_crc studio crash now (reset noted))
unfolding totem_task_wdt_cb
hang-ReportedOnce fault_crc studio crash fresh at now again t c s fault v =
    let label = some (chan_label (channel_of c s) s) in
    let once =
      note-ReportedOnce fault_crc studio crash fresh at now again t (channel_of c s) label fault in
    let named =
      label-note fault_crc at t (channel_of c s) (chan_label (channel_of c s) s) fault
      ∙ ap copy_label (label_of_channel c s v)
      ∙ copy_label-name_of c in
    (feeds-turn c s, named, once.0, once.1, once.2)
