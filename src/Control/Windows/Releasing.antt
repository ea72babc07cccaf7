-- ===== src/Control/Windows/Releasing.antt =====
-- Whatever command the Windows controller executes, it gives its handles back.
use cyberdaemon.Prelude.{
  refl, Bytes, Result, Option, none, some, if-cases, bytes_eq, pure, lift, check, ignore_error, ap,
  ◌>>=◌, ◌>>◌,
}
use cyberdaemon.ServiceManager.{
  Machine, World, finally, with_held, drop_service, delete, query, create_service, install_source,
  remove_source,
}
use cyberdaemon.ServiceManager.Releasing.{
  Restores, Restores-bind, Restores-continue, Restores-check, connect-Restores,
  open_service-Restores, create_service-Restores, try_open-Restores, SameHandles,
}
use cyberdaemon.Control.{
  Command, execute, report, start_immediately, get_status, start_command, stop_command,
  install_command, uninstall_command,
}
use cyberdaemon.Control.ServiceStop.{stop_and_wait}
use cyberdaemon.Control.ServiceStop.Releasing.{stop_and_wait-Restores}
use cyberdaemon.Control.Windows.{
  WindowsController, status, status_of_error, status_of_opened, check_or_delete, start_created,
  finish_install, install, remove_service, uninstall, start_service, start, stop, controller,
  not_installed_err, install_password, service_config, status_of_state,
}

module _ (M : Machine) (o : WindowsController) where
  status_of_error-Restores : (e : Bytes) → Restores M (status_of_error M e)
  unfolding status_of_error
  status_of_error-Restores e =
      if-cases (Restores M) (bytes_eq e not_installed_err) (λ _ w. refl) (λ _ w. refl)

  check_or_delete-Restores :
      (s : M.Service) (failure : Option Bytes) → Restores M (check_or_delete M s failure)
  unfolding check_or_delete
  check_or_delete-Restores s none w = refl
  check_or_delete-Restores s (some e) w = refl

  start_created-Restores : (s : M.Service) → Restores M (start_created M o s)
  unfolding start_created
  start_created-Restores s =
      if-cases (Restores M) (bytes_eq o.config.start_type start_immediately)
        (λ _ w. check_or_delete-Restores s _ _) (λ _ w. refl)

  finish_install-Restores : (s : M.Service) → Restores M (finish_install M o s)
  unfolding finish_install
  finish_install-Restores s =
      Restores-bind (start_created M o s)
        (λ _. install_source M o.config.daemon_id >>= λ failure. check_or_delete M s failure)
        (start_created-Restores s) (λ _ w. check_or_delete-Restores s _ _)

  install-Restores : Restores M (install M o)
  unfolding install
  install-Restores = connect-Restores _ (
      Restores-bind (lift (install_password o.config))
        (λ password.
          create_service M o.config.daemon_id o.config.exe_path (service_config o password)
            o.config.arguments
          >>= λ s. finally (with_held drop_service) (finish_install M o s))
        (λ w. refl)
        (λ password. create_service-Restores _ _ _ _ (finish_install M o) finish_install-Restores))

  remove_service-Restores : (s : M.Service) → Restores M (remove_service M o s)
  unfolding remove_service
  remove_service-Restores s =
      Restores-bind (ignore_error (stop_and_wait M s))
        (λ _. delete M s >>= λ failure.
          check failure
          >> (remove_source M o.config.daemon_id >>= λ source_failure. check source_failure))
        (stop_and_wait-Restores M s)
        (λ _.
          Restores-bind (delete M s)
            (λ failure.
              check failure
              >> (remove_source M o.config.daemon_id >>= λ source_failure. check source_failure))
            (λ w. refl)
            (λ failure.
              Restores-bind (check failure)
                (λ _. remove_source M o.config.daemon_id >>= λ source_failure. check source_failure)
                (Restores-check failure) (λ _ w. Restores-check _ _)))

  uninstall-Restores : Restores M (uninstall M o)
  unfolding uninstall
  uninstall-Restores =
      connect-Restores _ (open_service-Restores _ (remove_service M o) remove_service-Restores)

  start-Restores : Restores M (start M o)
  unfolding start start_service
  start-Restores =
      connect-Restores _ (open_service-Restores _ (start_service M) (λ s w. Restores-check _ _))

  stop-Restores : Restores M (stop M o)
  unfolding stop
  stop-Restores =
      connect-Restores _ (open_service-Restores _ (stop_and_wait M) (stop_and_wait-Restores M))

  query-Restores :
      (s : M.Service) → Restores M (query M s >>= λ state. pure (status_of_state state))
  query-Restores s w =
      Restores-continue (M.query w.state s) (λ state. pure (status_of_state state)) (λ _ v. refl) w

  status-Restores : Restores M (status M o)
  unfolding status status_of_opened
  status-Restores = connect-Restores _ (
      try_open-Restores o.config.daemon_id (status_of_opened M) status_of_error-Restores
        (λ s w. ap drop_service (query-Restores s w)))

  -- Whatever the command, and however it ends, the connection to the service manager, the service
  -- and the ticker that the controller took are given back.
  pub execute-releases :
      (command : Command) (w : World M)
      → SameHandles (execute command (controller M o) w).1.held w.held
  unfolding controller execute report
  execute-releases command w =
      if-cases P (bytes_eq command get_status) (λ _. status-Restores w)
        (λ _.
          if-cases P (bytes_eq command start_command) (λ _. start-Restores w)
            (λ _.
              if-cases P (bytes_eq command stop_command) (λ _. stop-Restores w)
                (λ _.
                  if-cases P (bytes_eq command install_command) (λ _. install-Restores w)
                    (λ _.
                      if-cases P (bytes_eq command uninstall_command) (λ _. uninstall-Restores w)
                        (λ _. refl)))))
    where
      P : Result Bytes × World M → Type 0
      P end = SameHandles end.1.held w.held
