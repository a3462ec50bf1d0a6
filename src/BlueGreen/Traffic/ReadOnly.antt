-- ===== src/BlueGreen/Traffic/ReadOnly.antt =====
-- Proofs about `set_read_only` and `is_read_only`.
use confiture.Base.{◌≡◌, refl, Bool, true, false, Option, none, some, if◌then◌else◌}
use confiture.Base.Exec.{Outcome, ok, err, Exec, gets, modify, ◌>>=◌}
use confiture.Base.Triple.{Post, Ends, Triple, triple-bind, ends-Post}
use confiture.BlueGreen.{Problem}
use confiture.BlueGreen.Traffic.{
  Stored, Services, Controller, is_one, on_conn, set_read_only, update_redis, update_flags,
  answer_of, is_read_only, stored_read_only,
}

-- Redis gives back what was last set, or nothing after a delete, if it answers.
pub record IsStore (services : Services) : Type 0 where
  pub set_law :
      (r : services.Redis)
      → Ends
          (services.redis_set r)
          (λ _ r'. Ends (services.redis_get r') (λ value _. is_one value ≡ true) (λ _ _. Unit {0}))
          (λ _ _. Unit {0})
  pub delete_law :
      (r : services.Redis)
      → Ends
          (services.redis_delete r)
          (λ _ r'. Ends (services.redis_get r') (λ value _. value ≡ none) (λ _ _. Unit {0}))
          (λ _ _. Unit {0})

module _ (services : Services) where
  -- Asked now, the controller answers `b`, or raises.
  abbrev pub Answers : Bool → Controller services → Type 0
  Answers b t = Ends (is_read_only t) (λ answer _. answer ≡ b) (λ _ _. Unit {0})

  -- Asked now, the controller answers `b` from its own field.
  abbrev pub AnswersItself : Bool → Controller services → Type 0
  AnswersItself b t = is_read_only t ≡ (ok b, t)

  abbrev Itself : Bool → Controller services → Type 0
  Itself b t = (t.redis ≡ none) × (t.read_only ≡ b)

  answers_itself : (b : Bool) (t : Controller services) → Itself b t → AnswersItself b t
  unfolding is_read_only stored_read_only
  answers_itself b t h = rw (h.0, h.1) refl

  on_conn-Itself :
      {A : Type 0} (b : Bool) (m : Exec services.Conn Problem A)
      → Triple (Itself b) (on_conn {services = services} m) (λ _ t. Itself b t) (λ _ t. Itself b t)
  on_conn-Itself {A} b m = record { at = λ t h. go (m t.conn).0 (m t.conn).1 t h }
    where
      go :
          (r : Outcome Problem A) (c : services.Conn) (t : Controller services)
          → Itself b t
          → Post (λ _ t. Itself b t) (λ _ t. Itself b t) r (record t { conn = c })
      go (ok a) c t h = h
      go (err e) c t h = h

  flags-Itself :
      (b : Bool) (flags : Option services.Flags)
      → Triple
          (Itself b)
          (update_flags {services = services} b flags)
          (λ _ t. Itself b t)
          (λ _ t. Itself b t)
  unfolding update_flags
  flags-Itself b none = record { at = λ t h. h }
  flags-Itself b (some flags) = record { at = λ t h. go (services.flags_set b flags).0 _ t h }
    where
      go :
          (r : Outcome Problem Unit) (f : services.Flags) (t : Controller services)
          → Itself b t
          → Post (λ _ t. Itself b t) (λ _ t. Itself b t) r (record t { feature_flags = some f })
      go (ok a) f t h = h
      go (err e) f t h = h

  set-Itself :
      (b : Bool)
      → Triple
          (λ t. t.redis ≡ none)
          (set_read_only {services = services} b)
          (λ _ t. Itself b t)
          (λ _ t. Itself b t)
  unfolding set_read_only
  set-Itself b = triple-bind (modify (λ t. record t { read_only = b })) _ switched λ _.
      triple-bind _ _ (on_conn-Itself b (services.set_default_read_only b)) λ _.
        triple-bind _ _ (on_conn-Itself b services.commit)
          λ _. record { at = λ t h. from_redis t t.redis h.0 h }
    where
      switched :
          Triple
            (λ t. t.redis ≡ none)
            (modify (λ t. record t { read_only = b }))
            (λ (_ : Unit {0}) t. Itself b t)
            (λ (_ : Problem) t. Itself b t)
      switched = record { at = λ t h. (h, refl) }

      from_redis :
          (t : Controller services) (redis : Option services.Redis)
          → redis ≡ none
          → Itself b t
          → Post
              (λ (_ : Unit {0}) t. Itself b t)
              (λ (_ : Problem) t. Itself b t)
              ((update_redis b redis >>= λ _. gets (λ t. t.feature_flags) >>= λ f. update_flags b f)
                t).0
              ((update_redis b redis >>= λ _. gets (λ t. t.feature_flags) >>= λ f. update_flags b f)
                t).1
      from_redis t none same h = (flags-Itself b t.feature_flags).at t h
      from_redis t (some redis) same h = cc

  -- A Redis client that would answer `b`.
  abbrev Holding : Bool → Controller services → Type 0
  Holding b t =
      (redis : services.Redis) × (t.redis ≡ some redis)
      × Ends (services.redis_get redis) (λ value _. is_one value ≡ b) (λ _ _. Unit {0})

  Answers-Holding : (b : Bool) (t : Controller services) → Holding b t → Answers b t
  unfolding is_read_only stored_read_only answer_of
  Answers-Holding b t (redis, same, held) = rw same (record { post = go _ _ held.post })
    where
      go :
          (r : Outcome Problem (Option Stored)) (redis : services.Redis)
          → Post (λ value _. is_one value ≡ b) (λ _ _. Unit {0}) r redis
          → Post
              (λ answer _. answer ≡ b)
              (λ (_ : Problem) _. Unit {0})
              (answer_of r)
              (record t { redis = some redis })
      go (ok value) redis h = h
      go (err e) redis h = tt

  abbrev HasRedis : Controller services → Type 0
  HasRedis t = (redis : services.Redis) × (t.redis ≡ some redis)

  on_conn_redis :
      {A : Type 0} (m : Exec services.Conn Problem A)
      → Triple HasRedis (on_conn {services = services} m) (λ _ t. HasRedis t) (λ _ _. Unit {0})
  on_conn_redis {A} m = record { at = λ t h. go (m t.conn).0 (m t.conn).1 t h }
    where
      go :
          (r : Outcome Problem A) (c : services.Conn) (t : Controller services)
          → HasRedis t
          → Post (λ _ t. HasRedis t) (λ _ _. Unit {0}) r (record t { conn = c })
      go (ok a) c t h = h
      go (err e) c t h = tt

  flags-Holding :
      (b : Bool) (flags : Option services.Flags)
      → Triple
          (Holding b)
          (update_flags {services = services} b flags)
          (λ _ t. Holding b t)
          (λ _ _. Unit {0})
  unfolding update_flags
  flags-Holding b none = record { at = λ t h. h }
  flags-Holding b (some flags) = record { at = λ t h. go (services.flags_set b flags).0 _ t h }
    where
      go :
          (r : Outcome Problem Unit) (f : services.Flags) (t : Controller services)
          → Holding b t
          → Post (λ _ t. Holding b t) (λ _ _. Unit {0}) r (record t { feature_flags = some f })
      go (ok a) f t h = h
      go (err e) f t h = tt

  module _ (store : IsStore services) where
    writes :
        (b : Bool) (redis : services.Redis)
        → Ends
            ((if b then services.redis_set else services.redis_delete) redis)
            (λ _ r'. Ends (services.redis_get r') (λ value _. is_one value ≡ b) (λ _ _. Unit {0}))
            (λ _ _. Unit {0})
    writes true redis = store.set_law redis
    writes false redis = record {
      post =
          ends-Post _ _ (store.delete_law redis)
            (λ _ r h. record { post = ends-Post _ _ h (λ v _ k. rw k refl) (λ _ _ u. u) })
            (λ _ _ u. u);
    }

    redis-Holding :
        (b : Bool) (redis : Option services.Redis)
        → Triple
            (λ t. HasRedis t × (redis ≡ t.redis))
            (update_redis b redis)
            (λ _ t. Holding b t)
            (λ _ _. Unit {0})
    unfolding update_redis
    redis-Holding b none = record { at = λ t (h, same). absurd (none_left t h.0 h.1 same) }
      where
        none_left :
            (t : Controller services) (redis : services.Redis)
            → t.redis ≡ some redis
            → none ≡ t.redis
            → ⊥
        none_left t redis h same = cc
    redis-Holding b (some redis) = record { at = λ t h. go _ _ t (writes b redis).post }
      where
        go :
            (r : Outcome Problem Unit) (redis : services.Redis) (t : Controller services)
            → Post
                (λ _ r'.
                  Ends (services.redis_get r') (λ value _. is_one value ≡ b) (λ _ _. Unit {0}))
                (λ _ _. Unit {0})
                r
                redis
            → Post (λ _ t. Holding b t) (λ _ _. Unit {0}) r (record t { redis = some redis })
        go (ok a) redis t h = (redis, refl, h)
        go (err e) redis t h = tt

    set-Holding :
        (b : Bool)
        → Triple HasRedis
            (set_read_only {services = services} b)
            (λ _ t. Holding b t)
            (λ _ _. Unit {0})
    unfolding set_read_only
    set-Holding b = triple-bind (modify (λ t. record t { read_only = b })) _ switched λ _.
        triple-bind _ _ (on_conn_redis (services.set_default_read_only b)) λ _.
          triple-bind _ _ (on_conn_redis services.commit) λ _.
            triple-bind (gets (λ t. t.redis)) _ found λ redis.
              triple-bind _ _ (redis-Holding b redis)
                λ _. record { at = λ t h. (flags-Holding b t.feature_flags).at t h }
      where
        switched :
            Triple HasRedis
              (modify (λ t. record t { read_only = b }))
              (λ (_ : Unit {0}) t. HasRedis t)
              (λ (_ : Problem) _. Unit {0})
        switched = record { at = λ t h. h }

        found :
            Triple HasRedis
              (gets (λ t. t.redis))
              (λ redis t. HasRedis t × (redis ≡ t.redis))
              (λ (_ : Problem) _. Unit {0})
        found = record { at = λ t h. (h, refl) }

-- With a Redis client that gives back what was set last, once `set_read_only` has returned, the
-- controller's `is_read_only` answers what was set, or raises because Redis does.
pub set_read_only-Answers :
    (services : Services) (b : Bool) (t : Controller services) (redis : services.Redis)
    → IsStore services
    → t.redis ≡ some redis
    → Ends (set_read_only b t) (λ _ t'. Answers services b t') (λ _ _. Unit {0})
set_read_only-Answers services b t redis store has = record {
  post =
      ends-Post (λ _ t'. Answers services b t') (λ _ _. Unit {0})
        (record { post = (set-Holding services store b).at t (redis, has) })
        (λ _ t' h. Answers-Holding services b t' h) (λ _ _ u. u);
}

-- Without a Redis client, however `set_read_only` ends, the controller answers what was asked for:
-- also when the database refused the statement, or the feature flag could not be set.
pub set_read_only_itself :
    (services : Services) (b : Bool) (t : Controller services)
    → t.redis ≡ none
    → Ends
        (set_read_only b t)
        (λ _ t'. AnswersItself services b t')
        (λ _ t'. AnswersItself services b t')
set_read_only_itself services b t no_redis = record {
  post =
      ends-Post (λ _ t'. AnswersItself services b t') (λ _ t'. AnswersItself services b t')
        (record { post = (set-Itself services b).at t no_redis })
        (λ _ t' h. answers_itself services b t' h) (λ _ t' h. answers_itself services b t' h);
}
