-- ===== src/Kafka/Loop/Ends/Rules.antt =====
-- Rules for the actions of the loop that do not get stuck.
use memory_system.Shared.{◌≢◌, Bool, true, false, if◌then◌else◌}
use memory_system.Shared.Exec.{Result, ok, err, pure, catch, on_error, continue, ◌>>=◌}
use memory_system.Extraction.Event.{ArchiveCreatedEvent}
use memory_system.Extraction.Task.{Task}
use memory_system.Extraction.World.{Deployment, Action}
use memory_system.Extraction.Consumer.{PipelineTerminalDecision}
use memory_system.Kafka.Wire.{Codec}
use memory_system.Kafka.Loop.{LoopFault, stuck, Client, LoopSettings, Loop, Looping}

module _ (d : Deployment) (codec : Codec) (client : Client codec.Bytes d.collection.Db)
    (pipeline : Task → ArchiveCreatedEvent → Action d PipelineTerminalDecision)
    (settings : LoopSettings) where
  abbrev pub L : Type 0
  L = Loop d codec client pipeline settings

  abbrev pub M : Type 0 → Type 0
  M A = Looping d codec client pipeline settings A

  abbrev pub Good :
      {A : Type 0}
      → (A → L → Type 0)
      → (L → Type 0)
      → Result (LoopFault client.Failure) A
      → L
      → Type 0
  Good Q X (ok a) l = Q a l
  Good Q X (err e) l = X l × (e ≢ stuck)

  -- Started in a state of `P`, the action returns with `Q` or raises an exception with `X`.
  pub record EndsWith {A : Type 0} (P : L → Type 0) (Q : A → L → Type 0) (X : L → Type 0) (m : M A)
      : Type 0 where
    pub at : (l : L) → P l → Good Q X (m l).0 (m l).1

  module _ {A : Type 0} {P : L → Type 0} {Q : A → L → Type 0} {X : L → Type 0} where
    pub EndsWith-pure : (a : A) → ((l : L) → P l → Q a l) → EndsWith P Q X (pure a)
    EndsWith-pure a h = record { at = h }

    pub EndsWith-if :
        (b : Bool) (m n : M A)
        → EndsWith P Q X m
        → EndsWith P Q X n
        → EndsWith P Q X (if b then m else n)
    EndsWith-if true m n h k = h
    EndsWith-if false m n h k = k

  module _ {A : Type 0} (Q : A → L → Type 0) (X Y : L → Type 0) where
    Good-raised :
        (r : Result (LoopFault client.Failure) A) (l : L)
        → ((l : L) → Y l → X l)
        → Good Q Y r l
        → Good Q X r l
    Good-raised (ok a) l h q = q
    Good-raised (err e) l h q = (h l q.0, q.1)

    pub EndsWith-raised :
        {P : L → Type 0} {m : M A} → ((l : L) → Y l → X l) → EndsWith P Q Y m → EndsWith P Q X m
    EndsWith-raised {m = m} h k = record { at = λ l p. Good-raised (m l).0 (m l).1 h (k.at l p) }

    Good-catch :
        (handler : LoopFault client.Failure → M A) (r : Result (LoopFault client.Failure) A) (l : L)
        → Good Q Y r l
        → ((e : LoopFault client.Failure) → EndsWith (λ l. Y l × (e ≢ stuck)) Q X (handler e))
        → Good Q X (on_error handler r l).0 (on_error handler r l).1
    Good-catch handler (ok a) l q h = q
    Good-catch handler (err e) l q h = (h e).at l q

    pub EndsWith-catch :
        {P : L → Type 0} (m : M A) (handler : LoopFault client.Failure → M A)
        → EndsWith P Q Y m
        → ((e : LoopFault client.Failure) → EndsWith (λ l. Y l × (e ≢ stuck)) Q X (handler e))
        → EndsWith P Q X (catch m handler)
    unfolding catch
    EndsWith-catch m handler k h = record {
      at = λ l p. Good-catch handler (m l).0 (m l).1 (k.at l p) h;
    }

  module _ {A B : Type 0} where
    Good-bind :
        (Q : A → L → Type 0) (R : B → L → Type 0) (X : L → Type 0) (f : A → M B)
        (r : Result (LoopFault client.Failure) A) (l : L)
        → Good Q X r l
        → ((a : A) → EndsWith (Q a) R X (f a))
        → Good R X (continue f r l).0 (continue f r l).1
    Good-bind Q R X f (ok a) l q h = (h a).at l q
    Good-bind Q R X f (err e) l q h = q

    pub EndsWith-bind :
        {P X : L → Type 0} (Q : A → L → Type 0) (R : B → L → Type 0) (m : M A) (f : A → M B)
        → EndsWith P Q X m
        → ((a : A) → EndsWith (Q a) R X (f a))
        → EndsWith P R X (m >>= f)
    unfolding ◌>>=◌
    EndsWith-bind {X = X} Q R m f k h = record {
      at = λ l p. Good-bind Q R X f (m l).0 (m l).1 (k.at l p) h;
    }
