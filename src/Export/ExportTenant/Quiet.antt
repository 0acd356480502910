-- ===== src/Export/ExportTenant/Quiet.antt =====
-- The steps of an export that only write files.
use cubeforge_api.Prelude.{true, Text, ◌≡◌, refl, sym, ap, ◌∙◌, arith, subst, eq_refl}
use cubeforge_api.Errors.{
  Exec, pure, Result, ExportFailureReason, lift, ◌>>=◌, ok, write_failed, err,
}
use cubeforge_api.Export.Sink.{put_file, ColumnarFile, ExportSink}
use cubeforge_api.Export.ExportTenant.{
  failing_as, write, World, classify, ColumnarFile, ExportSink, on_sink,
}
use cubeforge_api.Prelude.Dict.{has, has-put}
use cubeforge_api.Errors.Keeps.{keep-bind}

-- Both stores stay, and no file goes away.
pub record Quiet {A : Type 0} (m : Exec World A) : Type 0 where
  pub stores : (w : World) → (m w).1.stores ≡ w.stores
  pub files :
      (w : World) (k : Text) → has w.sink.written k ≡ true → has (m w).1.sink.written k ≡ true

pub Quiet-pure : {A : Type 0} (a : A) → Quiet (pure a)
Quiet-pure a = record { stores = λ w. refl; files = λ w k h. h }

pub Quiet-lift : {A : Type 0} (r : Result A) → Quiet (lift r)
Quiet-lift r = record { stores = λ w. refl; files = λ w k h. h }

pub Quiet-bind :
    {A B : Type 0} (m : Exec World A) (k : A → Exec World B)
    → Quiet m
    → ((a : A) → Quiet (k a))
    → Quiet (m >>= k)
Quiet-bind m k q h = record {
  stores = λ w.
      keep-bind (λ v. v.stores ≡ w.stores) m k w (λ e _. q.stores w)
        (λ a _. (h a).stores (m w).1 ∙ q.stores w);
  files = λ w j f.
      keep-bind (λ v. has v.sink.written j ≡ true) m k w (λ e _. q.files w j f)
        (λ a _. (h a).files (m w).1 j (q.files w j f));
}

put_file-files :
    (key j : Text) (file : ColumnarFile) (s : ExportSink)
    → has s.written j ≡ true
    → has (put_file key file s).1.written j ≡ true
unfolding put_file
put_file-files key j file s h = ground (arith, has-put s.written key j file, h)

put_file-there :
    (key : Text) (file : ColumnarFile) (s : ExportSink) (x : Unit {0})
    → (put_file key file s).0 ≡ ok x
    → has (put_file key file s).1.written key ≡ true
unfolding put_file
put_file-there key file s x h = ground (arith, has-put s.written key key file, eq_refl key, h)

classify-state :
    {A S : Type 0} (reason : ExportFailureReason) (r : Result A) (s : S)
    → (classify reason (r, s)).1 ≡ s
classify-state reason (ok a) s = refl
classify-state reason (err e) s = refl

pub failing_as-state :
    {A S : Type 0} (reason : ExportFailureReason) (m : Exec S A) (s : S)
    → (failing_as reason m s).1 ≡ (m s).1
unfolding failing_as
failing_as-state reason m s = classify-state reason (m s).0 (m s).1

classify-ok :
    {A S : Type 0} (reason : ExportFailureReason) (r : Result A) (s : S) (a : A)
    → (classify reason (r, s)).0 ≡ ok a
    → r ≡ ok a
classify-ok reason (ok b) s a h = h
classify-ok reason (err e) s a h = absurd (ground arith)

pub Quiet-write : (key : Text) (file : ColumnarFile) → Quiet (write key file)
unfolding write
Quiet-write key file = record {
  stores = λ w. ap (λ v. v.stores) (failing_as-state write_failed (on_sink (put_file key file)) w);
  files = λ w k h.
      subst (λ v. has v.sink.written k ≡ true)
        (sym (failing_as-state write_failed (on_sink (put_file key file)) w))
        (put_file-files key k file w.sink h);
}

pub write-there :
    (key : Text) (file : ColumnarFile) (w : World) (x : Unit {0})
    → (write key file w).0 ≡ ok x
    → has (write key file w).1.sink.written key ≡ true
unfolding write failing_as
write-there key file w x h =
    subst (λ (v : World). has v.sink.written key ≡ true)
      (sym (classify-state write_failed (put_file key file w.sink).0 _))
      (put_file-there key file w.sink x
        (classify-ok write_failed (put_file key file w.sink).0 _ x h))
