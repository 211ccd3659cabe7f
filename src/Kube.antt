-- ===== src/Kube.antt =====
-- The Kubernetes objects that the program reads, with the fields that it reads, and the answers of
-- the API server to a call: they belong to Kubernetes, and are parameters of what uses them. A
-- quantity stands by the integer that `MilliValue` or `Value` gives for it.
use marstack_govern.Prelude.{ℤ, String, Bool, List, Result}

pub record Container : Type 0 where
  pub cpu_request : ℤ
  pub memory_request : ℤ

pub data PodPhase : Type 0 where
  pod_pending pod_running pod_succeeded pod_failed pod_unknown : PodPhase

-- `metav1.ConditionStatus`
pub data ConditionStatus : Type 0 where
  condition_true condition_false condition_unknown : ConditionStatus

-- A condition of a pod or a node.
pub record ObjectCondition : Type 0 where
  pub kind : String
  pub status : ConditionStatus
  pub reason : String
  pub message : String

pub record KubePod : Type 0 where
  pub namespace : String
  pub name : String
  pub node_name : String
  pub phase : PodPhase
  pub containers : List Container
  pub conditions : List ObjectCondition

pub data TaintEffect : Type 0 where
  no_schedule prefer_no_schedule no_execute : TaintEffect

pub record KubeNode : Type 0 where
  pub name : String
  pub unschedulable : Bool
  pub conditions : List ObjectCondition
  pub taints : List TaintEffect
  pub allocatable_cpu : ℤ
  pub allocatable_memory : ℤ

-- What a reader of the cluster is answered.
pub record Cluster : Type 0 where
  pub list_nodes : Result (List KubeNode)
  pub list_pods : Result (List KubePod)
  pub list_pods_in : String → Result (List KubePod)
