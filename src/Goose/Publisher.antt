-- ===== src/Goose/Publisher.antt =====
-- goose/publisher.rs: the retransmission state machine. Durations and instants are numbers of
-- milliseconds; the size of an encoded message and whether the interface sends it are parameters; the addresses and the VLAN of the
-- configuration, which only the interface reads, are left out.
pub mod Laws
use rs_iec.Common.{
  ℕ, ◌+◌, ◌-◌, ◌*◌, ◌%◌, ◌^◌, Bool, true, false, ◌==◌, ltb, not, ◌||◌, if◌then◌else◌, List, [], ◌∷◌,
  Option, none, some, length, get_or, min, max,
}
use rs_iec.Goose.Messages.{Message, following}

abbrev pub u32_max : ℕ
u32_max = 4294967295

abbrev pub max_payload : ℕ
max_payload = 1500

abbrev pub default_retrans : List ℕ
default_retrans = 4 ∷ 8 ∷ 16 ∷ 32 ∷ 64 ∷ 128 ∷ 256 ∷ 512 ∷ 1000 ∷ []

pub record PublisherConfig : Type 0 where
  pub app_id : ℕ
  pub go_cb_ref : List ℕ
  pub dat_set : List ℕ
  pub go_id : List ℕ
  pub conf_rev : ℕ
  pub time_quality : Option ℕ
  pub retrans : List ℕ
  pub test : Bool
  pub nds_com : Bool

pub record PubState (T : Type 0) : Type 0 where
  pub st_num : ℕ
  pub sq_num : ℕ
  pub test : Bool
  pub nds_com : Bool
  pub t : Option T
  pub generation : ℕ

-- `Shared`, with the mutex and the atomic flag as plain fields.
pub record Publisher (T : Type 0) : Type 0 where
  pub cfg : PublisherConfig
  pub retrans : List ℕ
  pub state : PubState T
  pub closed : Bool

-- A running call of `retransmit`: the message it holds, its generation and its round.
pub record Task (V T : Type 0) : Type 0 where
  pub msg : Message V T
  pub generation : ℕ
  pub i : ℕ

pub data Error : Type 0 where
  closed_error interface_error config_no_reference config_zero_interval : Error
  frame_too_large : ℕ → Error

pub data Result {ℓ} (A : Type ℓ) : Type ℓ where
  ok : A → Result A
  err : Error → Result A

abbrev is_empty {ℓ} : {A : Type ℓ} → List A → Bool
is_empty [] = true
is_empty (x ∷ xs) = false

abbrev has_zero : List ℕ → Bool
has_zero [] = false
has_zero (d ∷ ds) = d == 0 || has_zero ds

-- `match (state_change, st.st_num)`
abbrev pub next_st_num : Bool → ℕ → ℕ
next_st_num true n = following n
next_st_num false n = if n == 0 then 1 else n

module _ {T : Type 0} where
  unfoldable pub new : PublisherConfig → Result (Publisher T)
  new cfg =
      let retrans = if is_empty cfg.retrans then default_retrans else cfg.retrans in
      if is_empty cfg.go_cb_ref
      then err config_no_reference
      else if has_zero retrans
      then err config_zero_interval
      else ok (record {
        cfg = record cfg { go_id = if is_empty cfg.go_id then cfg.go_cb_ref else cfg.go_id };
        retrans = retrans;
        state = record {
          st_num = 0;
          sq_num = 0;
          test = cfg.test;
          nds_com = cfg.nds_com;
          t = none;
          generation = 0;
        };
        closed = false;
      })

  unfoldable pub set_test : Publisher T → Bool → Publisher T
  set_test p test = record p { state = record p.state { test = test } }

  unfoldable pub set_nds_com : Publisher T → Bool → Publisher T
  set_nds_com p nds_com = record p { state = record p.state { nds_com = nds_com } }

  unfoldable pub close : Publisher T → Publisher T
  close p = record p { closed = true }

  -- `timeAllowedToLive` for transmission `n`.
  unfoldable pub tatl : Publisher T → ℕ → ℕ
  tatl p n = min (max (2 * get_or p.retrans (min n (length p.retrans - 1)) 0) 1) u32_max

  -- `match (state_change, st.t)`
  abbrev pub next_t : Bool → Option T → T → T
  next_t true t now = now
  next_t false none now = now
  next_t false (some t) now = t

module _ {V T : Type 0} where
  -- The message that `publish_state` builds.
  unfoldable pub announcement : Publisher T → List V → Bool → T → Message V T
  announcement p values state_change now = record {
    go_cb_ref = p.cfg.go_cb_ref;
    dat_set = p.cfg.dat_set;
    go_id = p.cfg.go_id;
    time_allowed_to_live = tatl p 0;
    t = next_t state_change p.state.t now;
    st_num = next_st_num state_change p.state.st_num;
    sq_num = 0;
    conf_rev = p.cfg.conf_rev;
    test = p.state.test;
    nds_com = p.state.nds_com;
    num_dat_set_entries = length values % 2 ^ 32;
    values = values;
    app_id = p.cfg.app_id;
    time_quality = p.cfg.time_quality;
  }

  -- Both counters of the retransmissions at their widest.
  unfoldable pub widest : Message V T → Message V T
  widest m = record m { sq_num = u32_max; time_allowed_to_live = u32_max }

  -- The state that a publish leaves.
  unfoldable pub announced : Publisher T → Message V T → Publisher T
  announced p m = record p {
    state = record p.state {
      st_num = m.st_num;
      sq_num = 0;
      t = some m.t;
      generation = p.state.generation + 1;
    };
  }

  module _ (size : Message V T → ℕ) (sends : Message V T → Bool) where
    -- The publisher afterwards, and the message sent with the task that repeats it.
    unfoldable pub publish_state : Publisher T → List V → Bool → T → Publisher T × Result (Task V T)
    publish_state p values state_change now =
        let m = announcement p values state_change now in
        if p.closed
        then (p, err closed_error)
        else if ltb max_payload (size (widest m))
        then (p, err (frame_too_large (size (widest m))))
        else if not (sends m)
        then (announced p m, err interface_error)
        else (announced p m, ok (record { msg = m; generation = p.state.generation + 1; i = 0 }))

    unfoldable pub publish : Publisher T → List V → T → Publisher T × Result (Task V T)
    unfolding publish_state
    publish p values now = publish_state p values true now

    unfoldable pub refresh : Publisher T → List V → T → Publisher T × Result (Task V T)
    unfolding publish_state
    refresh p values now = publish_state p values false now

    -- The message that the next round of `retransmit` carries.
    unfoldable pub repetition : Publisher T → Task V T → Message V T
    repetition p k = record (k.msg) {
      sq_num = following k.msg.sq_num;
      time_allowed_to_live = tatl p (k.i + 1);
    }

    -- One round after its sleep: the publisher, and the task as it goes on. `none` ends it.
    unfoldable pub retransmit : Publisher T → Task V T → Publisher T × Option (Task V T)
    unfolding repetition
    retransmit p k =
        let m = repetition p k in
        let p' = record p { state = record p.state { sq_num = m.sq_num } } in
        if p.closed || not (p.state.generation == k.generation)
        then (p, none)
        else if not (sends m)
        then (p', none)
        else (p', some (record { msg = m; generation = k.generation; i = k.i + 1 }))
