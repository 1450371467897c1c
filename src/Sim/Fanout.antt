-- ===== src/Sim/Fanout.antt =====
-- sim/FanoutSink.hpp, with the two sinks that sim/main.cpp gives it: the session file first, then the
-- live feed; and which of the sinks a run has.
use odds_engine.Base.{
  ℕ, ◌≡◌, refl, sym, ap, ◌∙◌, ◌↔◌, inl, inr, Bool, true, false, Option, none, some, List, [], ◌∷◌,
  length, length-append, nil_of_length, subst, ◌==◌, if◌then◌else◌, Bool-cases, Option-cases, arith,
}
use odds_engine.Base.Bytes.{Bytes}
use odds_engine.Wire.{OddsUpdate, SessionHeader}
use odds_engine.UdpSink
use odds_engine.UdpSink.{UdpSink, Sockets}
use odds_engine.Engine.Json.{colon}
use odds_engine.Sim.Args.{split_host_port}
use odds_engine.Sim.Target.{IsTarget, split_host_port_iff}
use odds_engine.Session
use odds_engine.Session.{FileSink, ◌>>=◌}
use odds_engine.Session.Recorded.{record_session}

pub record FanoutSink : Type 0 where
  pub file : FileSink
  pub feed : UdpSink

abbrev both : UdpSink → FileSink → FanoutSink
both feed file = record { file = file; feed = feed }

module _ (write_ok : Bytes → Bool) (send_ok : ℕ → Bytes → Bool) where
  unfoldable pub accept : OddsUpdate → FanoutSink → Option FanoutSink
  accept u s =
      Session.accept write_ok u s.file >>= λ f. some (both (UdpSink.accept send_ok u s.feed) f)

  -- The file that is left, and the feed.
  unfoldable pub finish : FanoutSink → Option (Bytes × UdpSink)
  finish s = Session.finish write_ok s.file >>= λ bytes. some (bytes, UdpSink.finish send_ok s.feed)

  abbrev pub accept_all : List OddsUpdate → FanoutSink → Option FanoutSink
  accept_all [] s = some s
  accept_all (u ∷ us) s = accept u s >>= accept_all us

  -- The feed alone.
  abbrev pub run_feed : SessionHeader → List OddsUpdate → UdpSink
  run_feed h us =
      UdpSink.finish send_ok
        (UdpSink.accept_all send_ok us (UdpSink.new send_ok h.seed h.markets h.books))

  abbrev pub with_feed : UdpSink → Option Bytes → Option (Bytes × UdpSink)
  with_feed feed none = none
  with_feed feed (some bytes) = some (bytes, feed)

  finish-both :
      (o : Option Bytes) (feed : UdpSink) → (o >>= λ bytes. some (bytes, feed)) ≡ with_feed feed o
  finish-both none feed = refl
  finish-both (some bytes) feed = refl

  accept_all-both :
      (us : List OddsUpdate) (f : FileSink) (feed : UdpSink)
      → (accept_all us (both feed f) >>= finish)
        ≡ with_feed
            (UdpSink.finish send_ok (UdpSink.accept_all send_ok us feed))
            (Session.accept_all write_ok us f >>= Session.finish write_ok)
  unfolding accept finish UdpSink.accept_all
  accept_all-both [] f feed = finish-both (Session.finish write_ok f) (UdpSink.finish send_ok feed)
  accept_all-both (u ∷ us) f feed =
      go (λ f'. accept_all-both us f' (UdpSink.accept send_ok u feed)) (Session.accept write_ok u f)
    where
      go :
          ((f' : FileSink)
            → (accept_all us (both (UdpSink.accept send_ok u feed) f') >>= finish)
              ≡ with_feed
                  (UdpSink.finish send_ok
                    (UdpSink.accept_all send_ok us (UdpSink.accept send_ok u feed)))
                  (Session.accept_all write_ok us f' >>= Session.finish write_ok))
          → (o : Option FileSink)
          → (((o >>= λ f. some (both (UdpSink.accept send_ok u feed) f)) >>= accept_all us)
              >>= finish)
            ≡ with_feed
                (UdpSink.finish send_ok
                  (UdpSink.accept_all send_ok us (UdpSink.accept send_ok u feed)))
                ((o >>= Session.accept_all write_ok us) >>= Session.finish write_ok)
      go later none = refl
      go later (some f') = later f'

-- `sink`: the session file alone, or the file and the feed.
pub data Sink : Type 0 where
  file_only : FileSink → Sink
  file_and_feed : FanoutSink → Sink

module _ (write_ok : Bytes → Bool) {Address : Type 0} (kernel : Sockets Address)
    (send_ok : ℕ → Bytes → Bool) (strtoul : Bytes → ℕ) where
  -- The feed that a target asks for; none is the end of the program, by the message on a bad target or
  -- by an exception.
  unfoldable pub open_feed : Bytes → SessionHeader → Option UdpSink
  open_feed target h = split_host_port strtoul target >>= λ (host, port).
      UdpSink.connect kernel send_ok host port h.seed h.markets h.books

  -- The file first, then the feed where there is a target.
  unfoldable pub open_sinks : Bytes → SessionHeader → Option Sink
  open_sinks target h = Session.create write_ok h >>= λ f.
      if length target == 0
      then some (file_only f)
      else (open_feed target h >>= λ feed. some (file_and_feed (both feed f)))

  unfoldable pub feed_sinks : Sink → List OddsUpdate → Option Sink
  feed_sinks (file_only f) us = Session.accept_all write_ok us f >>= λ f'. some (file_only f')
  feed_sinks (file_and_feed s) us =
      accept_all write_ok send_ok us s >>= λ s'. some (file_and_feed s')

  -- The file that is left, and the feed.
  unfoldable pub close_sinks : Sink → Option (Bytes × Option UdpSink)
  close_sinks (file_only f) = Session.finish write_ok f >>= λ bytes. some (bytes, none)
  close_sinks (file_and_feed s) =
      finish write_ok send_ok s >>= λ (bytes, feed). some (bytes, some feed)

  -- The sinks are made, take the quotes, and finish; none is exit code 1. The other files of a run, of
  -- the truth, the jumps and the winners, are left out.
  unfoldable pub run_sinks :
      Bytes → SessionHeader → List OddsUpdate → Option (Bytes × Option UdpSink)
  run_sinks target h us = open_sinks target h >>= λ s. feed_sinks s us >>= close_sinks

  -- The kernel gives a socket that is connected to the host and port.
  pub record IsConnected (host : Bytes) (port : ℕ) : Type 0 where
    pub socket : kernel.socket_ok ≡ true
    pub address : Address
    pub host_read : kernel.inet_pton host ≡ some address
    pub connected : kernel.connect_ok address port ≡ true

  -- What a run leaves of the feed: nothing without a target; and else the target is a host and a port
  -- that the socket could be connected to, and the feed is that of the quotes alone.
  abbrev pub IsFeedOf : Bytes → SessionHeader → List OddsUpdate → Option UdpSink → Type 0
  IsFeedOf target h us none = target ≡ []
  IsFeedOf target h us (some feed) =
      (host : Bytes) × (port : ℕ) × IsTarget strtoul target host port
      × IsConnected host port
      × (feed ≡ run_feed write_ok send_ok h us)

  connect_iff :
      (host : Bytes) (port : ℕ) (h : SessionHeader) (feed : UdpSink)
      → (UdpSink.connect kernel send_ok host port h.seed h.markets h.books ≡ some feed)
        ↔ (IsConnected host port × (feed ≡ UdpSink.new send_ok h.seed h.markets h.books))
  unfolding UdpSink.connect
  connect_iff host port h feed = (there, back)
    where
      back :
          IsConnected host port × (feed ≡ UdpSink.new send_ok h.seed h.markets h.books)
          → UdpSink.connect kernel send_ok host port h.seed h.markets h.books ≡ some feed
      back (c, e) = rw (UdpSink.connect, c.socket, c.host_read, c.connected) (ap some (sym e))

      there :
          UdpSink.connect kernel send_ok host port h.seed h.markets h.books ≡ some feed
          → IsConnected host port × (feed ≡ UdpSink.new send_ok h.seed h.markets h.books)
      there e = elim (Bool-cases kernel.socket_ok) [
        | inr refused ↦ absurd cc
        | inl socket ↦ elim (Option-cases (kernel.inet_pton host)) [
          | inl refused ↦ absurd cc
          | inr (address, read) ↦ elim (Bool-cases (kernel.connect_ok address port)) [
            | inr refused ↦ absurd cc
            | inl connected ↦ (
              record {
                socket = socket;
                address = address;
                host_read = read;
                connected = connected;
              },
              cc,
            )
          ]
        ]
      ]

  abbrev paired_with : Option UdpSink → Option Bytes → Option (Bytes × Option UdpSink)
  paired_with o none = none
  paired_with o (some bytes) = some (bytes, o)

  abbrev with_some : Option (Bytes × UdpSink) → Option (Bytes × Option UdpSink)
  with_some none = none
  with_some (some (bytes, feed)) = some (bytes, some feed)

  run_file :
      (us : List OddsUpdate) (f : FileSink)
      → (feed_sinks (file_only f) us >>= close_sinks)
        ≡ paired_with none (Session.accept_all write_ok us f >>= Session.finish write_ok)
  unfolding feed_sinks close_sinks
  run_file us f = go (Session.accept_all write_ok us f)
    where
      closed : (r : Option Bytes) → (r >>= λ bytes. some (bytes, none)) ≡ paired_with none r
      closed none = refl
      closed (some r) = refl

      go :
          (o : Option FileSink)
          → ((o >>= λ f'. some (file_only f')) >>= close_sinks)
            ≡ paired_with none (o >>= Session.finish write_ok)
      go none = refl
      go (some f') = closed (Session.finish write_ok f')

  run_fanout :
      (us : List OddsUpdate) (s : FanoutSink)
      → (feed_sinks (file_and_feed s) us >>= close_sinks)
        ≡ with_some (accept_all write_ok send_ok us s >>= finish write_ok send_ok)
  unfolding feed_sinks close_sinks
  run_fanout us s = go (accept_all write_ok send_ok us s)
    where
      closed :
          (r : Option (Bytes × UdpSink))
          → (r >>= λ (bytes, feed). some (bytes, some feed)) ≡ with_some r
      closed none = refl
      closed (some r) = refl

      go :
          (o : Option FanoutSink)
          → ((o >>= λ s'. some (file_and_feed s')) >>= close_sinks)
            ≡ with_some (o >>= finish write_ok send_ok)
      go none = refl
      go (some s') = closed (finish write_ok send_ok s')

  -- `run_sinks` by whether there is no target, the feed, and the file.
  abbrev run_with :
      List OddsUpdate → Bool → Option UdpSink → Option FileSink → Option (Bytes × Option UdpSink)
  run_with us alone feed file =
      (file >>= λ f.
      if alone then some (file_only f) else (feed >>= λ feed'. some (file_and_feed (both feed' f))))
      >>= λ s. feed_sinks s us >>= close_sinks

  run_with-alone :
      (us : List OddsUpdate) (feed : Option UdpSink) (file : Option FileSink)
      → run_with us true feed file
        ≡ paired_with none (file >>= Session.accept_all write_ok us >>= Session.finish write_ok)
  run_with-alone us feed none = refl
  run_with-alone us feed (some f) = run_file us f

  run_with_failed :
      (us : List OddsUpdate) (file : Option FileSink) → run_with us false none file ≡ none
  run_with_failed us none = refl
  run_with_failed us (some f) = refl

  run_with-both :
      (us : List OddsUpdate) (feed : UdpSink) (file : Option FileSink)
      → run_with us false (some feed) file
        ≡ paired_with
            (some (UdpSink.finish send_ok (UdpSink.accept_all send_ok us feed)))
            (file >>= Session.accept_all write_ok us >>= Session.finish write_ok)
  run_with-both us feed none = refl
  run_with-both us feed (some f) =
      run_fanout us (both feed f)
      ∙ ap with_some (accept_all-both write_ok send_ok us f feed)
      ∙ go (Session.accept_all write_ok us f >>= Session.finish write_ok)
    where
      end : UdpSink
      end = UdpSink.finish send_ok (UdpSink.accept_all send_ok us feed)

      go :
          (o : Option Bytes)
          → with_some (with_feed write_ok send_ok end o) ≡ paired_with (some end) o
      go none = refl
      go (some bytes) = refl

  paired :
      (r : Option Bytes) (bytes : Bytes) (o o' : Option UdpSink)
      → (paired_with o' r ≡ some (bytes, o)) ↔ ((r ≡ some bytes) × (o ≡ o'))
  paired none bytes o o' = ((λ e. absurd cc), λ h. absurd cc)
  paired (some b) bytes o o' = ((λ e. (cc, cc)), λ h. cc)

  open_feed_iff :
      (target : Bytes) (h : SessionHeader) (feed : UdpSink)
      → (open_feed target h ≡ some feed) ↔ (
          (host : Bytes) × (port : ℕ) × IsTarget strtoul target host port
          × IsConnected host port
          × (feed ≡ UdpSink.new send_ok h.seed h.markets h.books))
  unfolding open_feed
  open_feed_iff target h feed = (there, back)
    where
      back :
          ((host : Bytes) × (port : ℕ) × IsTarget strtoul target host port
            × IsConnected host port
            × (feed ≡ UdpSink.new send_ok h.seed h.markets h.books))
          → open_feed target h ≡ some feed
      back (host, port, t, c, e) =
          ap
            (◌>>= λ (host, port). UdpSink.connect kernel send_ok host port h.seed h.markets h.books)
            ((split_host_port_iff strtoul target host port).1 t)
          ∙ (connect_iff host port h feed).1 (c, e)

      there :
          open_feed target h ≡ some feed
          → (host : Bytes) × (port : ℕ) × IsTarget strtoul target host port
            × IsConnected host port
            × (feed ≡ UdpSink.new send_ok h.seed h.markets h.books)
      there e = elim (Option-cases (split_host_port strtoul target)) [
        | inl refused ↦ absurd cc
        | inr ((host, port), found) ↦
            let (c, same) = (connect_iff host port h feed).0 (
              sym (
                ap
                  (◌>>= λ (host, port).
                    UdpSink.connect kernel send_ok host port h.seed h.markets h.books)
                  found)
              ∙ e) in
            (host, port, (split_host_port_iff strtoul target host port).0 found, c, same)
      ]

  -- Whatever the disk and the kernel do: a run with no --truth, --jumps and --settle gets to its end
  -- with this file and feed exactly where the recording alone leaves this file, and either there is no
  -- target and no feed, or the target is a host and a port from 1 to 65535 that the kernel gives a
  -- connected socket for, and the feed is that of the quotes alone.
  pub run_sinks_iff :
      (target : Bytes) (h : SessionHeader) (us : List OddsUpdate) (bytes : Bytes)
      (o : Option UdpSink)
      → (run_sinks target h us ≡ some (bytes, o))
        ↔ ((record_session write_ok h us ≡ some bytes) × IsFeedOf target h us o)
  unfolding run_sinks open_sinks
  run_sinks_iff target h us bytes o = (there, λ (r, f). back o r f)
    where
      feed_after : UdpSink → UdpSink
      feed_after feed = UdpSink.finish send_ok (UdpSink.accept_all send_ok us feed)

      file : Option FileSink
      file = Session.create write_ok h

      there_asked :
          (feed : Option UdpSink)
          → open_feed target h ≡ feed
          → (length target == 0) ≡ false
          → run_sinks target h us ≡ some (bytes, o)
          → (record_session write_ok h us ≡ some bytes) × IsFeedOf target h us o
      there_asked none refused asked e =
          let run : run_with us (length target == 0) (open_feed target h) file ≡ none =
            ap (λ b. run_with us b (open_feed target h) file) asked
            ∙ ap (λ p. run_with us false p file) refused
            ∙ run_with_failed us file in
          let bad : none ≡ some (bytes, o) = sym run ∙ e in absurd cc
      there_asked (some feed) found asked e =
          let run =
            ap (λ b. run_with us b (open_feed target h) file) asked
            ∙ ap (λ p. run_with us false p file) found
            ∙ run_with-both us feed file in
          let (r, same) =
            (paired (record_session write_ok h us) bytes o (some (feed_after feed))).0
              (sym run ∙ e) in
          let (host, port, t, c, new) = (open_feed_iff target h feed).0 found in
          (r, subst (IsFeedOf target h us) (sym same) (host, port, t, c, ap feed_after new))

      there :
          run_sinks target h us ≡ some (bytes, o)
          → (record_session write_ok h us ≡ some bytes) × IsFeedOf target h us o
      there e = elim (Bool-cases (length target == 0)) [
        | inl alone ↦
            let run =
              ap (λ b. run_with us b (open_feed target h) file) alone
              ∙ run_with-alone us (open_feed target h) file in
            let (r, same) = (paired (record_session write_ok h us) bytes o none).0 (sym run ∙ e) in
            (
              r,
              subst (IsFeedOf target h us) (sym same)
                  (nil_of_length target (ground (arith, alone))),
            )
        | inr asked ↦ there_asked (open_feed target h) refl asked e
      ]

      back :
          (o : Option UdpSink)
          → record_session write_ok h us ≡ some bytes
          → IsFeedOf target h us o
          → run_sinks target h us ≡ some (bytes, o)
      back none r f =
          ap (λ b. run_with us b (open_feed target h) file) (ap (λ t. length t == 0) f)
          ∙ run_with-alone us (open_feed target h) file
          ∙ (paired (record_session write_ok h us) bytes none none).1 (r, refl)
      back (some feed) r (host, port, t, c, same) =
          let new = UdpSink.new send_ok h.seed h.markets h.books in
          let asked : (length target == 0) ≡ false =
            ground (arith, ap length t.text_eq, length-append host (colon ∷ t.tail), t.some_host) in
          ap (λ b. run_with us b (open_feed target h) file) asked
          ∙ ap (λ p. run_with us false p file)
              ((open_feed_iff target h new).1 (host, port, t, c, refl))
          ∙ run_with-both us new file
          ∙ (paired (record_session write_ok h us) bytes (some feed) (some (feed_after new))).1
              (r, ap some same)
