-- ===== src/Worker/Reactor/Calls.antt =====
-- The handlers in src/worker/reactor.rs: they make quiet calls only, which a view of the trace ignores,
-- and leave the backend as it is.
use rust_kernel_engine.Base.{◌≡◌, refl, ◌∙◌, is_neg, Bool-cases, inl, inr}
use rust_kernel_engine.State.{bind-keeps}
use rust_kernel_engine.Std.Keys.{Text}
use rust_kernel_engine.Std.FilePath.{join}
use rust_kernel_engine.Config.{ServerConfig, ServerMode, fast_path, dynamic_path}
use rust_kernel_engine.File.Mmap
use rust_kernel_engine.File.Mmap.Calls.{view-new, view-drop}
use rust_kernel_engine.Http.Parser.{HttpRequest, clean_path}
use rust_kernel_engine.Os.{Trace, exists_path}
use rust_kernel_engine.Os.Quiet.{Ignores}
use rust_kernel_engine.Base.{Outcome, ok, err, panic}
use rust_kernel_engine.Worker.Reactor.{
  Environment, Server, serve_file, handle_static_file, tail_of, dispatch, respond,
}

module _ {ℓ} {A : Type ℓ} (view : Trace → A) (ignores : Ignores view) (env : Environment)
    (config : ServerConfig) where
  open env use {kernel}

  view-serve_file : (path : Text) (t : Trace) → view (serve_file env config path t).1 ≡ view t
  unfolding serve_file
  view-serve_file path t =
      bind-keeps (λ t'. view t' ≡ view t) (Mmap.new kernel path t) _
        (view-new view ignores kernel path t) (λ m t' e. view-drop view ignores kernel m t' ∙ e)

  view-handle_static_file :
      (req : HttpRequest) (t : Trace) → view (handle_static_file env config req t).1 ≡ view t
  unfolding handle_static_file
  view-handle_static_file req t =
      bind-keeps (λ t'. view t' ≡ view t) (tail_of (clean_path req), t) _ refl
        λ tail t' e.
          elim (Bool-cases (is_neg (kernel t' (exists_path (join config.static_dir tail))).ret)) [
            | inl missing ↦ rw missing (ignores _ _ _ refl ∙ e)
            | inr there ↦
                rw there
                  (view-serve_file (join config.static_dir tail) _ ∙ (ignores _ _ _ refl ∙ e))
          ]

  view-dispatch :
      (m : ServerMode) (req : HttpRequest) (s : Server)
      → view (dispatch env config m req s).1.machine.trace ≡ view s.machine.trace
  unfolding dispatch
  view-dispatch fast_path req s = view-handle_static_file req s.machine.trace
  view-dispatch dynamic_path req s = refl

  pub view-respond :
      (r : Outcome HttpRequest) (s : Server)
      → view (respond env config r s).1.machine.trace ≡ view s.machine.trace
  unfolding respond
  view-respond (err e) s = refl
  view-respond panic s = refl
  view-respond (ok req) s = view-dispatch config.mode req s

module _ (env : Environment) (config : ServerConfig) where
  -- The handlers leave the backend as it is.
  pub respond-backend :
      (r : Outcome HttpRequest) (s : Server)
      → (respond env config r s).1.machine.backend ≡ s.machine.backend
  unfolding respond dispatch
  respond-backend (err e) s = refl
  respond-backend panic s = refl
  respond-backend (ok req) s = by_mode config.mode
    where
      by_mode :
          (m : ServerMode) → (dispatch env config m req s).1.machine.backend ≡ s.machine.backend
      by_mode fast_path = refl
      by_mode dynamic_path = refl
