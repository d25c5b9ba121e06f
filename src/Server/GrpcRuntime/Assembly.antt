-- ===== src/Server/GrpcRuntime/Assembly.antt =====
-- The interceptors and the metrics of the server that NewGRPCRuntime of go/server/grpc_runtime.go makes.
-- grpc.ChainUnaryInterceptor and ChainStreamInterceptor run interceptors in their order, the first one
-- outermost, as `chain_interceptors` does; further server options are left out.
use dense_cloud.Prelude.{String, Option, none, some, []}
use dense_cloud.Server.GrpcRuntime.{GrpcRuntimeConfig, text_or}
use dense_cloud.Middleware.Grpc.{Handler, chain_interceptors}
use dense_cloud.Middleware.Grpc.Observability.{RpcType, Recorded}
use dense_cloud.Middleware.Grpc.Preset.{GrpcOutside, GrpcServerPresetConfig, grpc_server_preset}
use dense_cloud.Telemetry.GrpcMetrics.{GrpcMetrics, new_grpc_metrics}

-- The metrics of the configuration, or new ones for its service.
unfoldable pub grpc_metrics_of :
    {W : Type 0} → GrpcRuntimeConfig W → Option GrpcMetrics → GrpcMetrics
unfolding new_grpc_metrics
grpc_metrics_of cfg none = new_grpc_metrics (text_or "dense-service" cfg.service_name) []
grpc_metrics_of cfg (some metrics) = metrics

module _ {Q R S : Type 0} where
  -- How the server handles a call of either form with the runtime's interceptors.
  unfoldable pub grpc_server_handler :
      RpcType
      → GrpcOutside (Recorded S)
      → GrpcServerPresetConfig Q R (Recorded S)
      → String
      → Handler Q R (Recorded S)
      → Handler Q R (Recorded S)
  unfolding grpc_server_preset chain_interceptors
  grpc_server_handler rpc_type out cfg method handler =
      chain_interceptors (grpc_server_preset rpc_type out cfg) method handler
